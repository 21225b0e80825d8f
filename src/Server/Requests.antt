-- ===== src/Server/Requests.antt =====
-- A request as the handlers of server/app.py read it, and the responses that they make.
-- Bytes are numbers; the JSON parser is a parameter.
pub mod Limits
use parqdb.Prelude.{
  ℕ, ◌+◌, ◌*◌, String, Char, code, Bool, true, false, not, ◌&&◌, ◌||◌, List, [], ◌∷◌, ◌++◌, length,
  Option, some, none, ◌==◌, leb, ltb, if◌then◌else◌,
}
use Prim.Native.String
use parqdb.Python.Int.{ℤ, pos, negsuc, is_non_negative, at_most}
use parqdb.Python.Exceptions.{
  Result, ok, err, raise, require, value_error, Exception, ◌>>=◌, ◌>>◌, map_result,
}
use parqdb.Python.Value.{Value, Fields, obj, bool, str, arr, items, get_or, nil, cons}
use parqdb.Text.Chars.{format, is_empty}
use parqdb.Text.Split.{split}
use parqdb.Text.Decimal.{to_int, strip}
use parqdb.Models.Checks.{reject_unknown}
use parqdb.Server.Routes.{Route, required_string}
use parqdb.Errors.{HttpError, classify_server_error, json}

pub record Request : Type 0 where
  pub route : Route
  -- the query parameters of the list of tables
  pub limit : Option String
  pub page_token : Option String
  -- headers
  pub content_type : Option String
  pub content_length : Option String
  pub x_request_id : Option String
  -- the chunks of the body
  pub chunks : List (List ℕ)
  -- what uuid.uuid4().hex gives
  pub uuid : String

abbrev pub text_length : String → ℕ
text_length String.[] = 0
text_length (String.◌∷◌ c s) = 1 + text_length s

abbrev pub all_chars : (Char → Bool) → String → Bool
all_chars p String.[] = true
all_chars p (String.◌∷◌ c s) = p c && all_chars p s

abbrev pub printable : Char → Bool
printable c = leb 32 (code c) && ltb (code c) 127

-- _request_id; the request keeps the first one.
unfoldable pub accepted_id : String → Bool
accepted_id s = not (is_empty s) && leb (text_length s) 128 && all_chars printable s

unfoldable pub request_id : Request → String
request_id r = elim r.x_request_id [ none ↦ r.uuid | some s ↦ if accepted_id s then s else r.uuid ]

pub data Response (Stream : Type 0) : Type 0 where
  json_response : ℕ → Value → String → Response Stream
  stream_response : Stream → String → Response Stream

abbrev pub max_json_body_bytes : ℕ
max_json_body_bytes = 1024 * 1024

-- The text before the first `;`.
abbrev pub media_type : Option String → String
media_type none = ""
media_type (some s) = elim (split ";" s) [ [] ↦ "" | p ∷ ps ↦ p ]

unfoldable pub check_length : Option String → Result (Unit {0})
check_length none = ok tt
check_length (some text) = elim (to_int text) [
  | none ↦ raise value_error "content-length must be an integer"
  | some n ↦ (do
    require (is_non_negative n) value_error "content-length must not be negative"
    require (at_most n max_json_body_bytes) value_error "JSON request body is too large")
]

-- The loop over request.stream().
unfoldable pub collect : List ℕ → List (List ℕ) → Result (List ℕ)
collect payload [] = ok payload
collect payload (chunk ∷ chunks) =
    let rest = collect (payload ++ chunk) chunks in
    if ltb max_json_body_bytes (length (payload ++ chunk))
    then raise value_error "JSON request body is too large"
    else rest

unfoldable pub as_object : Option Value → Result Fields
as_object none = raise value_error "request body must contain valid JSON"
as_object (some (obj fields)) = ok fields
as_object (some _) = raise value_error "request body must be a JSON object"

-- json.loads of the payload; `none` is a UnicodeDecodeError or a JSONDecodeError.
module _ (loads : List ℕ → Option Value) where
  unfoldable pub json_body : Request → Result Fields
  unfolding as_object
  json_body r = do
    require (media_type r.content_type == "application/json") value_error
        "content-type must be application/json"
    check_length r.content_length
    payload ← collect [] r.chunks
    as_object (loads payload)

-- _handle: whatever is raised becomes a response.
module _ {Stream : Type 0} where
  abbrev pub handle : Request → Result (Response Stream) → Response Stream
  handle r (ok response) = response
  handle r (err e) =
      let detail = classify_server_error e (request_id r) in
      json_response detail.status (json detail) detail.request_id

unfoldable pub only_fields : Fields → List String → Result (Unit {0})
only_fields body allowed = reject_unknown body allowed "request"

unfoldable pub required_boolean : Fields → String → Result Bool
required_boolean body name = elim (get_or body name (bool false)) [
  | bool b ↦ ok b
  | _ ↦ raise value_error (format (name ∷ " must be a boolean" ∷ []))
]

-- _string_array; `qualifier` is the message's word where the array must not be empty.
unfoldable pub string_array : Value → String → Bool → Result (List String)
string_array (arr (cons x xs)) name allow_empty =
    map_result (λ v. required_string v (format (name ∷ " item" ∷ []))) (x ∷ items xs)
string_array (arr nil) name allow_empty =
    if allow_empty
    then ok []
    else raise value_error (format (name ∷ " must be a non-empty array of strings" ∷ []))
string_array _ name allow_empty = raise value_error (
    format
      (name ∷ " must be a" ∷ (if allow_empty then "" else " non-empty") ∷ " array of strings" ∷ []))

-- The check that both SQL handlers make.
unfoldable pub sql_text : Value → Result String
sql_text (str s) =
    if is_empty (strip s) then raise value_error "sql must be a non-empty string" else ok s
sql_text _ = raise value_error "sql must be a non-empty string"
