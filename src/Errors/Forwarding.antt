-- ===== src/Errors/Forwarding.antt =====
-- What the client raises for what the server raised.
use parqdb.Prelude.{String, [], ◌∷◌, Option, ◌≡◌, refl, false, true, if◌then◌else◌, Bool}
use parqdb.Python.Exceptions.{
  ExceptionClass, is_instance, Exception, exception, runtime_error, not_implemented_error,
  type_error, value_error, json_decode_error, unicode_decode_error, key_error, overflow_error,
  os_error, permission_error, file_exists_error, timeout_error, http_error, parqdb_error,
  unsupported_operation_error, service_unavailable_error, stream_execution_error,
  query_queue_full_error, query_queue_timeout_error, index_not_found_error, already_exists_error,
  build_already_running_error, ambiguous_index_error, invalid_schema_error, invalid_metadata_error,
  invalid_argument_error, catalog_error, storage_error, backend_error,
}
use parqdb.Text.Chars.{format, is_empty}
use parqdb.Errors.{
  json, classify_server_error, first_row, lookup, client_errors, raise_remote_error,
}

-- The class that the client should raise for a class that the server raised.
abbrev pub forwarded : ExceptionClass → ExceptionClass
forwarded query_queue_full_error = query_queue_full_error
forwarded query_queue_timeout_error = query_queue_timeout_error
forwarded index_not_found_error = index_not_found_error
forwarded already_exists_error = already_exists_error
forwarded build_already_running_error = build_already_running_error
forwarded ambiguous_index_error = ambiguous_index_error
forwarded invalid_schema_error = invalid_schema_error
forwarded invalid_metadata_error = invalid_metadata_error
forwarded invalid_argument_error = invalid_argument_error
forwarded permission_error = permission_error
forwarded unsupported_operation_error = unsupported_operation_error
forwarded catalog_error = catalog_error
forwarded storage_error = storage_error
forwarded type_error = invalid_argument_error
forwarded value_error = invalid_argument_error
forwarded json_decode_error = invalid_argument_error
forwarded unicode_decode_error = invalid_argument_error
forwarded _ = backend_error

-- Whether an exception's own text may leave the server.
abbrev pub is_public : ExceptionClass → Bool
is_public exception = false
is_public runtime_error = false
is_public not_implemented_error = false
is_public key_error = false
is_public overflow_error = false
is_public os_error = false
is_public file_exists_error = false
is_public timeout_error = false
is_public http_error = false
is_public parqdb_error = false
is_public service_unavailable_error = false
is_public stream_execution_error = false
is_public _ = true

classify_kind :
    (k : ExceptionClass) (m id : String)
    → lookup client_errors
        (classify_server_error (record { kind = k; message = m }) id).code
        backend_error
      ≡ forwarded k
unfolding classify_server_error first_row is_instance lookup
classify_kind exception m id = refl
classify_kind _ m id = refl

classify_message :
    (k : ExceptionClass) (m id : String)
    → (classify_server_error (record { kind = k; message = m }) id).message
      ≡ (if is_public k then m else "internal server error")
unfolding classify_server_error first_row is_instance
classify_message exception m id = refl
classify_message _ m id = refl

classify_request_id :
    (k : ExceptionClass) (m id : String)
    → (classify_server_error (record { kind = k; message = m }) id).request_id ≡ id
unfolding classify_server_error first_row is_instance
classify_request_id exception m id = refl
classify_request_id _ m id = refl

-- For a non-empty request id, the client raises for the server's classified and serialized
-- exception the class that `forwarded` assigns to the server's class, with the server's message
-- and the id if the class is a public one, and with a fixed text in place of the message if
-- not.
pub raise_remote-classify :
    (e : Exception) (id : String) (header : Option String)
    → is_empty id ≡ false
    → let detail = classify_server_error e id in
      raise_remote_error
        (record { status_code = detail.status; x_request_id = header })
        (json detail)
      ≡ record {
        kind = forwarded e.kind;
        message = format (
            (if is_public e.kind then e.message else "internal server error")
            ∷ " (request_id="
            ∷ id
            ∷ ")"
            ∷ []);
      }
unfolding raise_remote_error json
raise_remote-classify e id header h =
    rw
      (
        classify_kind e.kind e.message id,
        classify_message e.kind e.message id,
        classify_request_id e.kind e.message id,
        h,
      )
      refl
