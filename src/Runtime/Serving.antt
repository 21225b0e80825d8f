-- ===== src/Runtime/Serving.antt =====
-- The session service as the service of the handlers of server/app.py.
use parqdb.Prelude.{String, true, false, List, [], ◌∷◌, All, none, ◌≡◌, refl}
use parqdb.Python.Exceptions.{Result, Exception, ok, err}
use parqdb.Python.Action.{Action, after, lift, ◌>>=◌}
use parqdb.Models.Registration.{Arrow}
use parqdb.Server.Service.{Service, App, vector, sql}
use parqdb.Python.Value.{obj, get}
use parqdb.Models.Registration.{registration_from_json}
use parqdb.Models.Queries.{vector_query_from_json}
use parqdb.Models.Indexes.{ivf_from_json, writer_options_from_json}
use parqdb.Server.Routes.{
  validate_route_identifier, validate_registration_route, required_string, scoped_identifier,
  scoped_index,
}
use parqdb.Server.Requests.{
  Request, Response, json_body, only_fields, string_array, sql_text, required_boolean,
}
use parqdb.Server.Tables.{
  page_of, list_tables_operation, register_table, describe_table, deregister,
}
use parqdb.Server.Indexes.{optional_ivf, create, list_of_table, register, status, refresh, drop}
use parqdb.Server.Queries.{query_table, query_sql, explain_table, explain_sql, table_to_sql}
use parqdb.Host.Native.{Native}
use parqdb.Runtime
use parqdb.Runtime.{SessionService}
use parqdb.Runtime.Refusal
use parqdb.Runtime.Refusal.{Operation, run-closed, run, session_closed}
use parqdb.Identifier.{TableIdentifier}

-- A request that is answered with an error, the service untouched.
abbrev pub Refused : {S A : Type 0} → Result A × S → S → Type 0
Refused result s = (e : Exception) × (result ≡ (err e, s))

lift-Refused :
    {S A B : Type 0} (m : Result A) (f : A → Action S B) (s : S)
    → ((a : A) → Refused (f a s) s)
    → Refused ((lift m >>= f) s) s
lift-Refused (ok a) f s h = h a
lift-Refused (err e) f s h = (e, refl)

first-Refused :
    {S A B : Type 0} (m : Action S A) (f : A → Action S B) (s : S) (e : Exception)
    → m s ≡ (err e, s)
    → Refused ((m >>= f) s) s
first-Refused m f s e h = (e, rw h refl)

module _ {arrow : Arrow} {N Stream Frame : Type 0} (native : Native arrow N Stream Frame) where
  -- The handlers make calls without a wait, and describe a table by its descriptor.
  unfoldable pub as_service : Service arrow (SessionService N) Stream
  as_service = record {
    register_parquet = Runtime.register_parquet native;
    list_tables = Runtime.list_tables native;
    table = λ name. Runtime.table native name >>= λ d. lift (ok (d.identifier, d.schema));
    deregister_table = Runtime.deregister_table native;
    create_index = λ t index column key config options.
        Runtime.create_index native t index column key config options none;
    register_index = Runtime.register_index native;
    refresh_index =
        λ t index config options. Runtime.refresh_index native t index config options none;
    index_status = Runtime.index_status native;
    list_indexes = Runtime.list_indexes native;
    drop_index = Runtime.drop_index native;
    stream = Runtime.stream native;
    explain = Runtime.explain native;
    to_sql = Runtime.to_sql native;
  }

-- The handlers that call the service.
unfoldable pub handlers :
    {arrow : Arrow} {S Batches Stream : Type 0}
    → App arrow S Batches Stream
    → List (Request → Action S (Response Stream))
handlers app =
    list_tables_operation app
    ∷ register_table app
    ∷ describe_table app
    ∷ deregister app
    ∷ create app
    ∷ list_of_table app
    ∷ register app
    ∷ status app
    ∷ refresh app
    ∷ drop app
    ∷ query_table app
    ∷ query_sql app
    ∷ explain_table app
    ∷ explain_sql app
    ∷ table_to_sql app
    ∷ []

module _ {arrow : Arrow} {N Batches Frame Stream : Type 0} (native : Native arrow N Batches Frame)
    (app : App arrow (SessionService N) Batches Stream) (served : app.service ≡ as_service native)
    (r : Request) (s : SessionService N) (closed : s.closed ≡ true) where
  abbrev After : {A B : Type 0} → Result A → (A → Action (SessionService N) B) → Type 0
  After m f = Refused (after m s f) s

  -- A step that does not touch the service.
  step :
      {A B : Type 0} (m : Result A) (f : A → Action (SessionService N) B)
      → ((a : A) → Refused (f a s) s)
      → Refused (after m s f) s
  step m f h = lift-Refused m f s h

  -- A call of the service.
  call :
      {A B : Type 0} (op : Operation arrow Batches A) (f : A → Action (SessionService N) B)
      → Refused (after (run native op s).0 (run native op s).1 f) s
  call op f = first-Refused (run native op) f s session_closed (run-closed native op s closed)

  described :
      {B : Type 0} (name : String)
      (f : TableIdentifier × arrow.Schema → Action (SessionService N) B)
      → Refused (((as_service native).table name >>= f) s) s
  unfolding as_service run
  described name f =
      first-Refused ((as_service native).table name) f s session_closed
        (rw (run-closed native (Refusal.table name) s closed) refl)

  -- With a closed session service behind them, each of the fifteen handlers that call the
  -- service ends in an exception for every request, and leaves the state of the service and of
  -- the native session as it was.
  pub handlers-Refused : All (λ handler. Refused (handler r s) s) (handlers app)
  unfolding handlers list_tables_operation register_table describe_table deregister create
      list_of_table register status refresh drop query_table query_sql explain_table explain_sql
      table_to_sql as_service run
  handlers-Refused = rw served (
    (step (page_of r) _ λ page. call Refusal.list_tables _),
    (
      (step (json_body app.loads r) _ λ body.
          step (registration_from_json arrow (obj body)) _ λ values.
            step (validate_registration_route r.route values.name) _ λ _.
              step (app.authorize values.source) _ λ path. call (Refusal.register_parquet _) _),
      (
        (step (json_body app.loads r) _ λ body.
            step (required_string (get body "reference") "reference") _ λ name. described name _),
        (
          (step (json_body app.loads r) _ λ body. step (only_fields body ("identifier" ∷ [])) _ λ _.
              step (scoped_identifier r.route body "identifier") _
                λ t. call (Refusal.deregister_table t) _),
          (
            (step (json_body app.loads r) _ λ body.
                step
                  (only_fields body
                    ("source" ∷ "index" ∷ "column" ∷ "key" ∷ "config" ∷ "writer_options" ∷ []))
                  _
                  λ _. step (scoped_identifier r.route body "source") _ λ t.
                    step (required_string (get body "index") "index") _ λ i.
                      step (string_array (get body "key") "key" false) _ λ key.
                        step (required_string (get body "column") "column") _ λ column.
                          step (ivf_from_json (get body "config")) _ λ config.
                            step (writer_options_from_json (get body "writer_options")) _ λ options.
                              call (Refusal.create_index t i column key config options none) _),
            (
              (step (json_body app.loads r) _ λ body. step (only_fields body ("source" ∷ [])) _ λ _.
                  step (scoped_identifier r.route body "source") _
                    λ t. call (Refusal.list_indexes t) _),
              (
                (step (json_body app.loads r) _ λ body.
                    step (only_fields body ("source" ∷ "index" ∷ "manifest_location" ∷ [])) _ λ _.
                      step (scoped_identifier r.route body "source") _ λ t.
                        step (scoped_index r.route body) _ λ i.
                          step (required_string (get body "manifest_location") "manifest_location")
                            _ λ l. call (Refusal.register_index t i l) _),
                (
                  (step (json_body app.loads r) _ λ body.
                      step (only_fields body ("source" ∷ "index" ∷ [])) _ λ _.
                        step (scoped_identifier r.route body "source") _ λ t.
                          step (scoped_index r.route body) _
                            λ i. call (Refusal.index_status t i) _),
                  (
                    (step (json_body app.loads r) _ λ body.
                        step
                          (only_fields body ("source" ∷ "index" ∷ "config" ∷ "writer_options" ∷ []))
                          _
                          λ _. step (scoped_identifier r.route body "source") _ λ t.
                            step (scoped_index r.route body) _ λ i.
                              step (optional_ivf (get body "config")) _ λ config.
                                step (writer_options_from_json (get body "writer_options")) _
                                  λ options.
                                    call (Refusal.refresh_index t i config options none) _),
                    (
                      (step (json_body app.loads r) _ λ body.
                          step (only_fields body ("source" ∷ "index" ∷ [])) _ λ _.
                            step (scoped_identifier r.route body "source") _ λ t.
                              step (scoped_index r.route body) _
                                λ i. call (Refusal.drop_index t i) _),
                      (
                        (step (json_body app.loads r) _ λ body.
                            step (vector_query_from_json (obj body)) _ λ q.
                              step (validate_route_identifier r.route q.source) _
                                λ _. call (Refusal.stream (vector q)) _),
                        (
                          (step (json_body app.loads r) _ λ body.
                              step (only_fields body ("sql" ∷ [])) _ λ _.
                                step (sql_text (get body "sql")) _
                                  λ text. call (Refusal.stream (sql text)) _),
                          (
                            (step (json_body app.loads r) _ λ body.
                                step (only_fields body ("query" ∷ "verbose" ∷ "analyze" ∷ [])) _
                                  λ _. step (vector_query_from_json (get body "query")) _ λ q.
                                    step (validate_route_identifier r.route q.source) _ λ _.
                                      step (required_boolean body "verbose") _ λ verbose.
                                        step (required_boolean body "analyze") _ λ analyze.
                                          call (Refusal.explain (vector q) verbose analyze) _),
                            (
                              (step (json_body app.loads r) _ λ body.
                                  step (only_fields body ("sql" ∷ "verbose" ∷ "analyze" ∷ [])) _
                                    λ _. step (sql_text (get body "sql")) _ λ text.
                                      step (required_boolean body "verbose") _ λ verbose.
                                        step (required_boolean body "analyze") _ λ analyze.
                                          call (Refusal.explain (sql text) verbose analyze) _),
                              (
                                (step (json_body app.loads r) _ λ body.
                                    step (vector_query_from_json (obj body)) _ λ q.
                                      step (validate_route_identifier r.route q.source) _
                                        λ _. call (Refusal.to_sql q) _),
                                (tt),
                              ),
                            ),
                          ),
                        ),
                      ),
                    ),
                  ),
                ),
              ),
            ),
          ),
        ),
      ),
    ),
  )
