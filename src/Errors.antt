-- ===== src/Errors.antt =====
-- How exceptions cross the wire: transport/errors.py.
pub mod Forwarding
use parqdb.Prelude.{ℕ, String, List, [], ◌∷◌, Option, some, none, ◌==◌, if◌then◌else◌}
use parqdb.Python.Int.{pos}
use parqdb.Python.Exceptions.{
  ExceptionClass, query_queue_full_error, query_queue_timeout_error, index_not_found_error,
  already_exists_error, build_already_running_error, ambiguous_index_error, invalid_schema_error,
  invalid_metadata_error, invalid_argument_error, permission_error, unsupported_operation_error,
  type_error, value_error, catalog_error, storage_error, backend_error, parqdb_error,
  service_unavailable_error, is_instance, Exception,
}
use parqdb.Python.Value.{Value, str, obj, of_entries, get}
use parqdb.Text.Chars.{format, is_empty}
use parqdb.Text.Decimal.{of_nat}

pub record HttpError : Type 0 where
  pub status : ℕ
  pub code : String
  pub message : String
  pub request_id : String

-- HttpError.json
unfoldable pub json : HttpError → Value
json e = obj (
    of_entries (
      (
        "error",
        obj (
            of_entries (
              ("code", str e.code)
              ∷ ("message", str e.message)
              ∷ ("request_id", str e.request_id)
              ∷ [])),
      )
      ∷ []))

abbrev pub server_errors : List (ExceptionClass × ℕ × String)
server_errors =
    (query_queue_full_error, 429, "query_queue_full")
    ∷ (query_queue_timeout_error, 429, "query_queue_timeout")
    ∷ (index_not_found_error, 404, "index_not_found")
    ∷ (already_exists_error, 409, "already_exists")
    ∷ (build_already_running_error, 409, "build_already_running")
    ∷ (ambiguous_index_error, 409, "ambiguous_index")
    ∷ (invalid_schema_error, 400, "invalid_schema")
    ∷ (invalid_metadata_error, 400, "invalid_metadata")
    ∷ (invalid_argument_error, 400, "invalid_argument")
    ∷ (permission_error, 403, "permission_denied")
    ∷ (unsupported_operation_error, 501, "unsupported_operation")
    ∷ (type_error, 400, "invalid_argument")
    ∷ (value_error, 400, "invalid_argument")
    ∷ (catalog_error, 500, "catalog_error")
    ∷ (storage_error, 500, "storage_error")
    ∷ (backend_error, 500, "backend_error")
    ∷ []

abbrev pub client_errors : List (String × ExceptionClass)
client_errors =
    ("query_queue_full", query_queue_full_error)
    ∷ ("query_queue_timeout", query_queue_timeout_error)
    ∷ ("index_not_found", index_not_found_error)
    ∷ ("already_exists", already_exists_error)
    ∷ ("build_already_running", build_already_running_error)
    ∷ ("ambiguous_index", ambiguous_index_error)
    ∷ ("invalid_schema", invalid_schema_error)
    ∷ ("invalid_metadata", invalid_metadata_error)
    ∷ ("invalid_argument", invalid_argument_error)
    ∷ ("permission_denied", permission_error)
    ∷ ("unsupported_operation", unsupported_operation_error)
    ∷ ("catalog_error", catalog_error)
    ∷ ("storage_error", storage_error)
    ∷ ("backend_error", backend_error)
    ∷ []

-- The row of the first class that the exception is an instance of.
unfoldable pub first_row : List (ExceptionClass × ℕ × String) → ExceptionClass → Option (ℕ × String)
first_row [] k = none
first_row ((c, status, code) ∷ rows) k =
    let rest = first_row rows k in if is_instance k c then some (status, code) else rest

unfoldable pub classify_server_error : Exception → String → HttpError
classify_server_error e request_id = elim (first_row server_errors e.kind) [
  | none ↦ record {
    status = 500;
    code = "internal";
    message = "internal server error";
    request_id = request_id;
  }
  | some (status, code) ↦ record {
    status = status;
    code = code;
    message = e.message;
    request_id = request_id;
  }
]

-- _CLIENT_ERRORS.get(code, default)
unfoldable pub lookup : List (String × ExceptionClass) → String → ExceptionClass → ExceptionClass
lookup [] code default = default
lookup ((c, k) ∷ rows) code default =
    let rest = lookup rows code default in if c == code then k else rest

-- A response with its `x-request-id` header.
pub record Response : Type 0 where
  pub status_code : ℕ
  pub x_request_id : Option String

abbrev pub text_or : Value → String → String
text_or (str s) default = s
text_or _ default = default

-- `value.get("request_id")` if it is a text, and the header otherwise.
abbrev pub id_or : Value → Option String → Option String
id_or (str s) default = some s
id_or _ default = default

abbrev with_id : String → Option String → String
with_id message none = message
with_id message (some id) =
    if is_empty id then message else format (message ∷ " (request_id=" ∷ id ∷ ")" ∷ [])

abbrev remote : String → String → Option String → Exception
remote code message id = record {
  kind = lookup client_errors code backend_error;
  message = with_id message id;
}

-- What the exception is built from: the body's `error`, where it is an object.
abbrev from_error : Value → String → Option String → Exception
from_error (obj e) message id =
    remote (text_or (get e "code") "remote_error") (text_or (get e "message") message)
      (id_or (get e "request_id") id)
from_error _ message id = remote "remote_error" message id

-- raise_remote_error: the exception that it raises.
unfoldable pub raise_remote_error : Response → Value → Exception
raise_remote_error response (obj body) =
    from_error (get body "error")
      (format ("ParqDB server returned HTTP " ∷ of_nat response.status_code ∷ []))
      response.x_request_id
raise_remote_error response _ =
    remote "remote_error"
      (format ("ParqDB server returned HTTP " ∷ of_nat response.status_code ∷ []))
      response.x_request_id

unfoldable pub raise_remote_build_error : Option String → String → Exception
raise_remote_build_error none message = record {
  kind = lookup client_errors "" parqdb_error;
  message = message;
}
raise_remote_build_error (some code) message = record {
  kind = lookup client_errors code parqdb_error;
  message = message;
}

-- `unavailable`, with the error's text.
unfoldable pub unavailable : String → Exception
unavailable error = record {
  kind = service_unavailable_error;
  message = format ("ParqDB server is unavailable: " ∷ error ∷ []);
}
