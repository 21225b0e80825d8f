-- ===== src/Runtime.antt =====
-- runtime/service.py: the session service over the embedded session, whose state is `N`. A time-out
-- is a number of microseconds. Arguments have the types that the code's annotations give them.
pub mod Refusal
pub mod Serving
pub mod References
pub mod Plans
use parqdb.Prelude.{
  ℕ, ◌*◌, String, Bool, true, false, not, List, [], ◌∷◌, map, Option, some, none, if◌then◌else◌,
}
use parqdb.Python.Exceptions
use parqdb.Python.Exceptions.{
  Result, Exception, is_instance, ok, err, raise, require, map_result, convert, runtime_error,
  value_error, timeout_error,
}
use parqdb.Python.Int.{ℤ, pos, is_positive}
use parqdb.Python.Action.{Action, lift, ◌>>=◌, ◌>>◌}
use parqdb.Text.Chars.{format, is_empty, member}
use parqdb.Text.Decimal.{strip}
use parqdb.Text.Split.{join}
use parqdb.Config.{Ivf, WriteOptions}
use parqdb.Identifier.{TableIdentifier, table_identifier, index_namespace}
use parqdb.Query.{VectorQuery}
use parqdb.Status.{IndexStatus, IndexInfo}
use parqdb.Models.Registration.{Arrow, Registration}
use parqdb.Models.Registration
use parqdb.Python.Value.{str}
use parqdb.Server.Service.{Query, vector, sql}
use parqdb.Host.Native.{Native, WriterOptions, PlanBatch, IndexValues, SearchArguments}
use parqdb.Host.Tables
use parqdb.Host.Tables.{
  Table, plain, source_table, table_definition, resolve_query_source, prepare_index_tables,
  search_arguments,
}
use parqdb.Host.Explain.{finally, format_explain, explain_prefix}

pub record SessionService (N : Type 0) : Type 0 where
  pub closed : Bool
  pub host : N

pub record TableDescriptor (Schema : Type 0) : Type 0 where
  pub identifier : TableIdentifier
  pub schema : Schema

unfoldable pub ensure_open : {N : Type 0} → Action (SessionService N) (Unit {0})
ensure_open s = if s.closed then (raise runtime_error "session is closed", s) else (ok tt, s)

unfoldable pub close : {N : Type 0} → Action (SessionService N) (Unit {0})
close s = (ok tt, record s { closed = true })

-- A call of the embedded session.
abbrev pub hosted : {N A : Type 0} → Action N A → Action (SessionService N) A
hosted m s = ((m s.host).0, record s { host = (m s.host).1 })

-- _validate_timeout
unfoldable pub validate_timeout : ℤ → String → Result (Unit {0})
validate_timeout timeout name =
    require (is_positive timeout) value_error (format (name ∷ " must be positive" ∷ []))

validate_optional : Option ℤ → Result (Unit {0})
unfolding validate_timeout
validate_optional none = ok tt
validate_optional (some timeout) = validate_timeout timeout "wait_timeout"

-- _table_reference, of an identifier and of a text.
unfoldable pub identifier_reference : TableIdentifier → String
identifier_reference t = join "." (index_namespace t)

unfoldable pub text_reference : String → Result String
text_reference name =
    if is_empty name then raise value_error "table identifier must not be empty" else ok name

-- WriteOptions()
abbrev pub default_options : WriteOptions
default_options = record {
  partitions = none;
  compression = "uncompressed";
  target_file_size = pos (512 * 1024 * 1024);
  max_row_group_rows = none;
  write_batch_rows = pos 8192;
}

abbrev or_default : Option WriteOptions → WriteOptions
or_default none = default_options
or_default (some options) = options

unfoldable pub native_writer_options : WriteOptions → WriterOptions
native_writer_options options = record {
  compression = options.compression;
  max_row_group_rows = options.max_row_group_rows;
  target_file_size = options.target_file_size;
  write_batch_rows = options.write_batch_rows;
}

abbrev pub build_states : List String
build_states = "pending" ∷ "building" ∷ "ready" ∷ "failed" ∷ []

unfoldable pub index_info : IndexValues → IndexInfo
index_info v = record {
  name = v.name;
  column = v.column;
  family = v.family;
  metric = v.metric;
  parameters = v.parameters;
  current_snapshot_id = v.current_snapshot_id;
}

abbrev on_config : {A : Type 0} → (Ivf → A) → Option Ivf → Option A
on_config f none = none
on_config f (some config) = some (f config)

module _ {arrow : Arrow} {N Stream Frame : Type 0} (native : Native arrow N Stream Frame) where
  abbrev pub Op : Type 0 → Type 0
  Op A = Action (SessionService N) A

  unfoldable pub register_parquet : Registration arrow → Op (Unit {0})
  register_parquet r = do
    ensure_open
    hosted (
        Tables.register_parquet native r.name r.source r.table_partition_cols r.parquet_pruning
          r.file_extension r.skip_metadata r.schema (some (map (map str) r.file_sort_order)))

  unfoldable pub list_tables : Op (List TableIdentifier)
  list_tables = do
    ensure_open
    definitions ← hosted native.list_table_definitions
    lift (map_result (λ d. table_identifier d.0 d.1 d.2) definitions)

  -- A table by its reference.
  descriptor : String → Table Frame → Result (TableDescriptor arrow.Schema)
  descriptor name (plain frame) =
      raise value_error (format ("table is not a registered ParqDB source: " ∷ name ∷ []))
  descriptor name (source_table t) =
      ok (record { identifier = t.identifier; schema = native.frame_schema t.dataframe })

  unfoldable pub table : String → Op (TableDescriptor arrow.Schema)
  unfolding descriptor
  table identifier = do
    ensure_open
    name ← lift (text_reference identifier)
    found ← hosted (Tables.table native name)
    lift (descriptor name found)

  unfoldable pub deregister_table : TableIdentifier → Op (Unit {0})
  deregister_table t = do
    ensure_open
    hosted (Tables.deregister_table native (identifier_reference t))

  -- _prepared_search_arguments, with _prepare_vector_query.
  unfoldable pub prepared_search_arguments : VectorQuery → Action N SearchArguments
  prepared_search_arguments q = do
    source ← resolve_query_source native q
    prepare_index_tables native q source
    lift (ok (search_arguments native q source))

  unfoldable pub stream : Query → Op Stream
  stream (sql statement) = do
    ensure_open
    lift (require (not (is_empty (strip statement))) value_error "SQL statement must not be empty")
    hosted (native.stream_sql statement)
  stream (vector q) = do
    ensure_open
    arguments ← hosted (prepared_search_arguments q)
    hosted (native.stream_search arguments)

  -- _collect_batches
  unfoldable pub collect_batches : Stream → Action N (List PlanBatch)
  collect_batches s = finally (native.plan_batches s) (native.aclose s)

  -- The stream of a plan.
  unfoldable pub plan_stream : Query → Bool → Bool → Op Stream
  plan_stream (sql statement) verbose analyze =
      stream (sql (format (explain_prefix verbose analyze ∷ " " ∷ statement ∷ [])))
  plan_stream (vector q) verbose analyze = do
    arguments ← hosted (prepared_search_arguments q)
    hosted (native.stream_explain_search arguments verbose analyze)

  unfoldable pub explain : Query → Bool → Bool → Op String
  unfolding plan_stream
  explain q verbose analyze = do
    ensure_open
    s ← plan_stream q verbose analyze
    batches ← hosted (collect_batches s)
    lift (format_explain batches)

  unfoldable pub to_sql : VectorQuery → Op String
  to_sql q = do ensure_open; hosted (Tables.to_sql native q)

  -- _wait_for_index
  wait : String → TableIdentifier → String → ℤ → Action N (Unit {0})
  wait source t index timeout n =
      let (r, n') = native.wait_for_index_build source (index_namespace t) index timeout n in
      (
        convert (λ k. is_instance k timeout_error)
            (λ _. record {
              kind = timeout_error;
              message = format ("timed out waiting for index: " ∷ index ∷ []);
            })
            r,
        n',
      )

  wait_if : String → TableIdentifier → String → Option ℤ → Action N (Unit {0})
  unfolding wait
  wait_if source t index none = lift (ok tt)
  wait_if source t index (some timeout) = wait source t index timeout

  unfoldable pub create_index :
      TableIdentifier
      → String
      → String
      → List String
      → Ivf
      → Option WriteOptions
      → Option ℤ
      → Op (Unit {0})
  unfolding validate_optional wait_if
  create_index t index column key config writer_options wait_timeout = do
    ensure_open
    lift (validate_optional wait_timeout)
    source ← hosted (table_definition native t)
    hosted (
        native.submit_create_index source (index_namespace t) index column key config.nlist
          config.encoding config.metric (native_writer_options (or_default writer_options))
          (or_default writer_options).partitions)
    hosted (wait_if source t index wait_timeout)

  unfoldable pub register_index : TableIdentifier → String → String → Op (Unit {0})
  register_index t index location = do
    ensure_open
    lift (
        require (not (is_empty location)) value_error
          "manifest_location must be a non-empty string")
    source ← hosted (table_definition native t)
    hosted (native.register_index source (index_namespace t) index location)

  unfoldable pub refresh_index :
      TableIdentifier → String → Option Ivf → Option WriteOptions → Option ℤ → Op (Unit {0})
  unfolding validate_optional wait_if
  refresh_index t index config writer_options wait_timeout = do
    ensure_open
    lift (validate_optional wait_timeout)
    source ← hosted (table_definition native t)
    hosted (
        native.submit_refresh_index source (index_namespace t) index
          (on_config (λ c. c.nlist) config) (on_config (λ c. c.encoding) config)
          (on_config (λ c. c.metric) config) (native_writer_options (or_default writer_options))
          (or_default writer_options).partitions)
    hosted (wait_if source t index wait_timeout)

  unfoldable pub index_status : TableIdentifier → String → Op IndexStatus
  index_status t index = do
    ensure_open
    source ← hosted (table_definition native t)
    status ← hosted (native.index_build_status source (index_namespace t) index)
    lift (
        require (member status.state build_states) runtime_error
          (format ("native build coordinator returned invalid state: " ∷ status.state ∷ [])))
    lift (ok status)

  unfoldable pub wait_for_index : TableIdentifier → String → ℤ → Op (Unit {0})
  unfolding wait
  wait_for_index t index timeout = do
    ensure_open
    lift (validate_timeout timeout "timeout")
    source ← hosted (table_definition native t)
    hosted (wait source t index timeout)

  unfoldable pub list_indexes : TableIdentifier → Op (List IndexInfo)
  list_indexes t = do
    ensure_open
    source ← hosted (table_definition native t)
    values ← hosted (native.list_source_indexes source (index_namespace t))
    lift (ok (map index_info values))

  unfoldable pub drop_index : TableIdentifier → String → Op (Unit {0})
  drop_index t index = do
    ensure_open
    source ← hosted (table_definition native t)
    hosted (native.drop_source_index source (index_namespace t) index)
