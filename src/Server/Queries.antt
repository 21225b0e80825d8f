-- ===== src/Server/Queries.antt =====
-- The handlers of server/app.py for queries.
use parqdb.Prelude.{[], ◌∷◌}
use parqdb.Python.Exceptions.{ok}
use parqdb.Python.Value.{obj, str, get}
use parqdb.Models.Registration.{Arrow}
use parqdb.Models.Queries.{vector_query_from_json}
use parqdb.Server.Routes.{validate_route_identifier}
use parqdb.Python.Action.{Action, lift, ◌>>=◌, ◌>>◌}
use parqdb.Server.Requests.{
  Request, Response, stream_response, request_id, json_body, only_fields, required_boolean,
  sql_text,
}
use parqdb.Server.Service.{App, vector, sql}
use parqdb.Server.Tables.{respond}

module _ {arrow : Arrow} {S Batches Stream : Type 0} (app : App arrow S Batches Stream) where
  open app.service use {stream, explain, to_sql}

  unfoldable pub query_table : Request → Action S (Response Stream)
  query_table r = do
    body ← lift (json_body app.loads r)
    q ← lift (vector_query_from_json (obj body))
    lift (validate_route_identifier r.route q.source)
    batches ← stream (vector q)
    encoded ← app.encode batches
    lift (ok (stream_response encoded (request_id r)))

  unfoldable pub query_sql : Request → Action S (Response Stream)
  query_sql r = do
    body ← lift (json_body app.loads r)
    lift (only_fields body ("sql" ∷ []))
    text ← lift (sql_text (get body "sql"))
    batches ← stream (sql text)
    encoded ← app.encode batches
    lift (ok (stream_response encoded (request_id r)))

  unfoldable pub explain_table : Request → Action S (Response Stream)
  explain_table r = do
    body ← lift (json_body app.loads r)
    lift (only_fields body ("query" ∷ "verbose" ∷ "analyze" ∷ []))
    q ← lift (vector_query_from_json (get body "query"))
    lift (validate_route_identifier r.route q.source)
    verbose ← lift (required_boolean body "verbose")
    analyze ← lift (required_boolean body "analyze")
    plan ← explain (vector q) verbose analyze
    lift (ok (respond r 200 (("plan", str plan) ∷ [])))

  unfoldable pub explain_sql : Request → Action S (Response Stream)
  explain_sql r = do
    body ← lift (json_body app.loads r)
    lift (only_fields body ("sql" ∷ "verbose" ∷ "analyze" ∷ []))
    text ← lift (sql_text (get body "sql"))
    verbose ← lift (required_boolean body "verbose")
    analyze ← lift (required_boolean body "analyze")
    plan ← explain (sql text) verbose analyze
    lift (ok (respond r 200 (("plan", str plan) ∷ [])))

  unfoldable pub table_to_sql : Request → Action S (Response Stream)
  table_to_sql r = do
    body ← lift (json_body app.loads r)
    q ← lift (vector_query_from_json (obj body))
    lift (validate_route_identifier r.route q.source)
    text ← to_sql q
    lift (ok (respond r 200 (("sql", str text) ∷ [])))
