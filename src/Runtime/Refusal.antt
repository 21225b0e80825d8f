-- ===== src/Runtime/Refusal.antt =====
-- A closed session service refuses every operation, and so does every handler over it.
use parqdb.Prelude.{String, Bool, true, List, Option, ◌≡◌, refl}
use parqdb.Python.Exceptions.{Exception, err, runtime_error}
use parqdb.Python.Int.{ℤ}
use parqdb.Python.Action.{Action, ◌>>=◌}
use parqdb.Config.{Ivf, WriteOptions}
use parqdb.Identifier.{TableIdentifier}
use parqdb.Query.{VectorQuery}
use parqdb.Status.{IndexStatus, IndexInfo}
use parqdb.Models.Registration.{Arrow, Registration}
use parqdb.Server.Service.{Query, vector, sql}
use parqdb.Host.Native.{Native}
use parqdb.Runtime
use parqdb.Runtime.{SessionService, TableDescriptor, ensure_open}

-- The operations of a session service, by what they return.
pub data Operation (arrow : Arrow) (Stream : Type 0) : Type 0 → Type 1 where
  register_parquet : Registration arrow → Operation arrow Stream (Unit {0})
  list_tables : Operation arrow Stream (List TableIdentifier)
  table : String → Operation arrow Stream (TableDescriptor arrow.Schema)
  deregister_table : TableIdentifier → Operation arrow Stream (Unit {0})
  stream : Query → Operation arrow Stream Stream
  explain : Query → Bool → Bool → Operation arrow Stream String
  to_sql : VectorQuery → Operation arrow Stream String
  create_index :
      TableIdentifier
      → String
      → String
      → List String
      → Ivf
      → Option WriteOptions
      → Option ℤ
      → Operation arrow Stream (Unit {0})
  register_index : TableIdentifier → String → String → Operation arrow Stream (Unit {0})
  refresh_index :
      TableIdentifier
      → String
      → Option Ivf
      → Option WriteOptions
      → Option ℤ
      → Operation arrow Stream (Unit {0})
  index_status : TableIdentifier → String → Operation arrow Stream IndexStatus
  wait_for_index : TableIdentifier → String → ℤ → Operation arrow Stream (Unit {0})
  list_indexes : TableIdentifier → Operation arrow Stream (List IndexInfo)
  drop_index : TableIdentifier → String → Operation arrow Stream (Unit {0})

abbrev pub session_closed : Exception
session_closed = record { kind = runtime_error; message = "session is closed" }

closed_first :
    {N A : Type 0} (k : Unit {0} → Action (SessionService N) A) (s : SessionService N)
    → s.closed ≡ true
    → (ensure_open >>= k) s ≡ (err session_closed, s)
unfolding ensure_open
closed_first k s h = rw h refl

module _ {arrow : Arrow} {N Stream Frame : Type 0} (native : Native arrow N Stream Frame) where
  unfoldable pub run : {A : Type 0} → Operation arrow Stream A → Action (SessionService N) A
  run (register_parquet r) = Runtime.register_parquet native r
  run list_tables = Runtime.list_tables native
  run (table name) = Runtime.table native name
  run (deregister_table t) = Runtime.deregister_table native t
  run (stream q) = Runtime.stream native q
  run (explain q verbose analyze) = Runtime.explain native q verbose analyze
  run (to_sql q) = Runtime.to_sql native q
  run (create_index t i c k config options wait) =
      Runtime.create_index native t i c k config options wait
  run (register_index t i location) = Runtime.register_index native t i location
  run (refresh_index t i config options wait) = Runtime.refresh_index native t i config options wait
  run (index_status t i) = Runtime.index_status native t i
  run (wait_for_index t i timeout) = Runtime.wait_for_index native t i timeout
  run (list_indexes t) = Runtime.list_indexes native t
  run (drop_index t i) = Runtime.drop_index native t i

  -- Every operation of a closed session service raises RuntimeError with the text `session is
  -- closed` and leaves the state as it was, the native session untouched.
  pub run-closed :
      {A : Type 0} (op : Operation arrow Stream A) (s : SessionService N)
      → s.closed ≡ true
      → run op s ≡ (err session_closed, s)
  unfolding run Runtime.register_parquet Runtime.list_tables Runtime.table Runtime.deregister_table
      Runtime.stream Runtime.explain Runtime.to_sql Runtime.create_index Runtime.register_index
      Runtime.refresh_index Runtime.index_status Runtime.wait_for_index Runtime.list_indexes
      Runtime.drop_index
  run-closed (register_parquet r) s h = closed_first _ s h
  run-closed list_tables s h = closed_first _ s h
  run-closed (table name) s h = closed_first _ s h
  run-closed (deregister_table t) s h = closed_first _ s h
  run-closed (stream (sql q)) s h = closed_first _ s h
  run-closed (stream (vector q)) s h = closed_first _ s h
  run-closed (explain q verbose analyze) s h = closed_first _ s h
  run-closed (to_sql q) s h = closed_first _ s h
  run-closed (create_index t i c k config options wait) s h = closed_first _ s h
  run-closed (register_index t i location) s h = closed_first _ s h
  run-closed (refresh_index t i config options wait) s h = closed_first _ s h
  run-closed (index_status t i) s h = closed_first _ s h
  run-closed (wait_for_index t i timeout) s h = closed_first _ s h
  run-closed (list_indexes t) s h = closed_first _ s h
  run-closed (drop_index t i) s h = closed_first _ s h
