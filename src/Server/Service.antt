-- ===== src/Server/Service.antt =====
-- What the handlers ask of the service (runtime/service.py) and of the source policy: an interface,
-- over the state that the service keeps.
use parqdb.Prelude.{ℕ, String, Bool, List, Option}
use parqdb.Python.Exceptions.{Result}
use parqdb.Python.Value.{Value}
use parqdb.Identifier.{TableIdentifier}
use parqdb.Query.{VectorQuery}
use parqdb.Config.{Ivf, WriteOptions}
use parqdb.Status.{IndexStatus, IndexInfo}
use parqdb.Models.Registration.{Arrow, Registration}
use parqdb.Python.Action.{Action}

-- A query over a table, or an SQL statement.
pub data Query : Type 0 where
  vector : VectorQuery → Query
  sql : String → Query

pub record Service (arrow : Arrow) (S Stream : Type 0) : Type 1 where
  -- the registration's `source` is the authorized path
  pub register_parquet : Registration arrow → Action S (Unit {0})
  pub list_tables : Action S (List TableIdentifier)
  pub table : String → Action S (TableIdentifier × arrow.Schema)
  pub deregister_table : TableIdentifier → Action S (Unit {0})
  pub create_index :
      TableIdentifier
      → String
      → String
      → List String
      → Ivf
      → Option WriteOptions
      → Action S (Unit {0})
  pub register_index : TableIdentifier → String → String → Action S (Unit {0})
  pub refresh_index :
      TableIdentifier → String → Option Ivf → Option WriteOptions → Action S (Unit {0})
  pub index_status : TableIdentifier → String → Action S IndexStatus
  pub list_indexes : TableIdentifier → Action S (List IndexInfo)
  pub drop_index : TableIdentifier → String → Action S (Unit {0})
  pub stream : Query → Action S Stream
  pub explain : Query → Bool → Bool → Action S String
  pub to_sql : VectorQuery → Action S String

-- What the handlers share: the JSON parser, the service, the encoder of a stream of batches as a
-- stream of bytes, and SourceUriPolicy.authorize.
pub record App (arrow : Arrow) (S Batches Stream : Type 0) : Type 1 where
  pub loads : List ℕ → Option Value
  pub service : Service arrow S Batches
  -- encode_ipc_stream
  pub encode : Batches → Action S Stream
  pub authorize : String → Result String
