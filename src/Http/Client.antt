-- ===== src/Http/Client.antt =====
-- HttpTransport of transport/http.py: its requests and what it makes of the replies. The network is
-- a parameter, with a state of its own.
pub mod Tables
use parqdb.Prelude.{
  ℕ, ◌*◌, String, Char, Bool, true, false, not, ◌&&◌, ◌||◌, List, [], ◌∷◌, ◌++◌, map, all, length,
  Option, some, none, ◌==◌, leb, ltb, eqb, if◌then◌else◌,
}
use parqdb.Python.Exceptions
use parqdb.Python.Exceptions.{
  Result, ok, err, raise, convert, map_result, ExceptionClass, is_instance, Exception,
  runtime_error, type_error, value_error, stream_execution_error, unsupported_operation_error,
}
use parqdb.Python.Value.{
  Value, Fields, null, bool, str, arr, obj, items, of_entries, of_strings, of_option, get,
}
use parqdb.Python.Action.{Action, lift, ◌>>=◌, ◌>>◌}
use parqdb.Text.Chars.{is_empty, format, member}
use parqdb.Text.Decimal.{strip, of_nat}
use parqdb.Text.Split.{split, join}
use parqdb.Identifier.{TableIdentifier, table_identifier}
use parqdb.Config.{Ivf, WriteOptions}
use parqdb.Query.{VectorQuery}
use parqdb.Status.{IndexStatus, IndexInfo}
use parqdb.Errors.{Response, raise_remote_error, unavailable}
use parqdb.Models.Identifiers.{identifier_to_json, identifier_from_json}
use parqdb.Models.Queries.{vector_query_to_json}
use parqdb.Models.Indexes.{ivf_to_json, writer_options_to_json}
use parqdb.Models.Statuses.{index_status_from_json, index_info_from_json}
use parqdb.Models.Registration.{Arrow, ColumnType, registration_to_json, schema_from_base64}
use parqdb.Http.Routes.{table_path, index_path, registration_path, identifier_reference}

-- `self._closed` and `self._owns_client`
pub record Transport : Type 0 where
  pub closed : Bool
  pub owns_client : Bool

pub record Message : Type 0 where
  pub method : String
  pub path : String
  pub params : List (String × String)
  pub body : Option Value

-- What httpx gives back: an httpx.HTTPError's text, or a response whose content has a size and,
-- unless it is no JSON, a value.
pub data Reply : Type 0 where
  http_error : String → Reply
  response : Response → ℕ → Option Value → Reply

-- _ERROR_BODY_LIMIT
abbrev pub body_limit : ℕ
body_limit = 1024 * 1024

unfoldable pub ensure_open : Transport → Result (Unit {0})
ensure_open t = if t.closed then raise runtime_error "session is closed" else ok tt

-- _response_json, with json's None for what is no JSON
unfoldable pub response_json : ℕ → Option Value → Result Value
response_json size content =
    if ltb body_limit size
    then raise stream_execution_error "ParqDB server returned an oversized JSON response"
    else ok (elim content [ none ↦ null | some v ↦ v ])

as_object : Value → Result Fields
as_object (obj fields) = ok fields
as_object _ = raise stream_execution_error "ParqDB server returned invalid JSON"

-- response.is_error
abbrev is_error : ℕ → Bool
is_error status = leb 400 status && leb status 599

unfoldable pub read_reply : Reply → Result Fields
unfolding as_object
read_reply (http_error text) = err (unavailable text)
read_reply (response r size content) =
    Exceptions.◌>>=◌ (response_json size content)
      (λ body. if is_error r.status_code then err (raise_remote_error r body) else as_object body)

-- An error of the class ValueError, said to be the server's.
abbrev pub blame {ℓ} : {A : Type ℓ} → String → Result A → Result A
blame message r =
    convert (λ k. is_instance k value_error)
      (λ _. record { kind = stream_execution_error; message = message }) r

as_list : Value → String → Result (List Value)
as_list (arr values) message = ok (items values)
as_list _ message = raise stream_execution_error message

as_text : Value → String → Result String
as_text (str s) message = ok s
as_text _ message = raise stream_execution_error message

abbrev delimiter : String → List (String × String)
delimiter d = ("delimiter", d) ∷ []

module _ {S : Type 0} (send : Message → Action S Reply) (transport : Transport) where
  unfoldable pub request_json :
      String → String → List (String × String) → Option Value → Action S Fields
  request_json method path params body = do
    lift (ensure_open transport)
    reply ← send (record { method = method; path = path; params = params; body = body })
    lift (read_reply reply)

  -- A POST request about a table or an index.
  post : String × String → List (String × Value) → Action S Fields
  unfolding request_json
  post (path, d) body = request_json "POST" path (delimiter d) (some (obj (of_entries body)))

  unfoldable pub explain : VectorQuery → Bool → Bool → Action S String
  unfolding post as_text
  explain q verbose analyze = do
    lift (ensure_open transport)
    path ← lift (table_path q.source "explain")
    body ← post path (
        ("query", vector_query_to_json q)
        ∷ ("verbose", bool verbose)
        ∷ ("analyze", bool analyze)
        ∷ [])
    lift (as_text (get body "plan") "ParqDB server returned an invalid query plan")

  unfoldable pub explain_sql : String → Bool → Bool → Action S String
  unfolding as_text
  explain_sql text verbose analyze = do
    lift (ensure_open transport)
    body ← request_json "POST" "v1/sql/explain" [] (
        some (
          obj (
            of_entries
              (("sql", str text) ∷ ("verbose", bool verbose) ∷ ("analyze", bool analyze) ∷ []))))
    lift (as_text (get body "plan") "ParqDB server returned an invalid query plan")

  unfoldable pub to_sql : VectorQuery → Action S String
  unfolding as_text
  to_sql q = do
    lift (ensure_open transport)
    path ← lift (table_path q.source "to_sql")
    body ← request_json "POST" path.0 (delimiter path.1) (some (vector_query_to_json q))
    lift (as_text (get body "sql") "ParqDB server returned invalid SQL")

  -- `wait_timeout` is given as the wait itself, if there is one.
  abbrev wait_if : Option (Action S (Unit {0})) → Action S (Unit {0})
  wait_if none = lift (ok tt)
  wait_if (some wait) = wait

  unfoldable pub create_index :
      TableIdentifier
      → String
      → String
      → List String
      → Ivf
      → Option WriteOptions
      → Option (Action S (Unit {0}))
      → Action S (Unit {0})
  unfolding post
  create_index t index column key config options wait = do
    lift (ensure_open transport)
    path ← lift (table_path t "create_index")
    _ ← post path (
        ("source", identifier_to_json t)
        ∷ ("index", str index)
        ∷ ("column", str column)
        ∷ ("key", of_strings key)
        ∷ ("config", ivf_to_json config)
        ∷ ("writer_options", writer_options_to_json options)
        ∷ [])
    wait_if wait

  unfoldable pub register_index : TableIdentifier → String → String → Action S (Unit {0})
  unfolding post
  register_index t index location = do
    lift (ensure_open transport)
    path ← lift (index_path t (str index) "register")
    _ ← post path (
        ("source", identifier_to_json t)
        ∷ ("index", str index)
        ∷ ("manifest_location", str location)
        ∷ [])
    lift (ok tt)

  unfoldable pub refresh_index :
      TableIdentifier
      → String
      → Option Ivf
      → Option WriteOptions
      → Option (Action S (Unit {0}))
      → Action S (Unit {0})
  unfolding post
  refresh_index t index config options wait = do
    lift (ensure_open transport)
    path ← lift (index_path t (str index) "refresh")
    _ ← post path (
        ("source", identifier_to_json t)
        ∷ ("index", str index)
        ∷ ("config", of_option ivf_to_json config)
        ∷ ("writer_options", writer_options_to_json options)
        ∷ [])
    wait_if wait

  unfoldable pub index_status : TableIdentifier → String → Action S IndexStatus
  unfolding post
  index_status t index = do
    lift (ensure_open transport)
    path ← lift (index_path t (str index) "stats")
    body ← post path (("source", identifier_to_json t) ∷ ("index", str index) ∷ [])
    lift (blame "ParqDB server returned invalid index status" (index_status_from_json (obj body)))

  unfoldable pub list_indexes : TableIdentifier → Action S (List IndexInfo)
  unfolding post as_list
  list_indexes t = do
    lift (ensure_open transport)
    path ← lift (table_path t "index/list")
    body ← post path (("source", identifier_to_json t) ∷ [])
    values ← lift (as_list (get body "indexes") "ParqDB server returned invalid index metadata")
    lift (
        blame "ParqDB server returned invalid index metadata"
          (map_result index_info_from_json values))

  unfoldable pub drop_index : TableIdentifier → String → Action S (Unit {0})
  unfolding post
  drop_index t index = do
    lift (ensure_open transport)
    path ← lift (index_path t (str index) "drop")
    _ ← post path (("source", identifier_to_json t) ∷ ("index", str index) ∷ [])
    lift (ok tt)

-- close, with whether it closes the client.
unfoldable pub close : Transport → Transport × Bool
close t =
    if t.closed
    then (t, false)
    else (record { closed = true; owns_client = t.owns_client }, t.owns_client)
