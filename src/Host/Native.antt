-- ===== src/Host/Native.antt =====
-- What session.py and runtime/service.py ask of the native session and of DataFusion's context.
use parqdb.Prelude.{ℕ, String, Bool, List, Option}
use parqdb.Python.Exceptions.{Result}
use parqdb.Python.Int.{ℤ}
use parqdb.Python.Float.{Float}
use parqdb.Python.Value.{Value}
use parqdb.Python.Action.{Action}
use parqdb.Status.{IndexStatus}
use parqdb.Models.Registration.{Arrow}

-- The arguments of a search.
pub record SearchArguments : Type 0 where
  pub source : String
  pub index_namespace : List String
  pub query : List Float
  pub index : Option String
  pub column : Option String
  pub nprobe : Option ℤ
  pub limit : ℤ
  pub projection : Option (List String)
  pub filter : Option String
  pub bypass_index : Bool

-- _ParquetWriterOptions
pub record WriterOptions : Type 0 where
  pub compression : String
  pub max_row_group_rows : Option ℤ
  pub target_file_size : ℤ
  pub write_batch_rows : ℤ

-- A batch of an EXPLAIN: its number of columns, and the values of the first two.
pub record PlanBatch : Type 0 where
  pub num_columns : ℕ
  pub plan_types : List Value
  pub plans : List Value

-- What the native side keeps of an index: name, column, family, metric, parameters, snapshot.
pub record IndexValues : Type 0 where
  pub name : String
  pub column : String
  pub family : String
  pub metric : String
  pub parameters : List (String × String)
  pub current_snapshot_id : ℤ

-- `Stream` is a stream of batches, `Frame` a lazy DataFrame. Methods that a stream has are those of
-- AsyncBatchStream.
pub record Native (arrow : Arrow) (N Stream Frame : Type 0) : Type 1 where
  -- json.loads, and str() of a value that is no text
  pub loads : String → Result Value
  pub text_of : Value → String
  -- os.fspath(Path(reference).expanduser().resolve()), and the check of an authority in urlsplit
  pub resolve_path : String → String
  pub check_netloc : String → Result (Unit {0})
  pub register_parquet :
      String
      → String
      → List (String × arrow.DataType)
      → Bool
      → String
      → Bool
      → Option arrow.Schema
      → List (List String)
      → Action N (Unit {0})
  pub list_table_definitions : Action N (List (String × List String × String))
  pub persistent_table_definition : String → Action N (Option String)
  pub persistent_table_definition_by_identifier :
      String → List String → String → Action N (Option String)
  pub drop_table_definition_if_exists : String → Action N Bool
  pub select_index_metadata : String → List String → Option String → Option String → Action N String
  pub plan_search : SearchArguments → Action N Frame
  pub search_sql : SearchArguments → Action N String
  pub stream_sql : String → Action N Stream
  pub stream_search : SearchArguments → Action N Stream
  pub stream_explain_search : SearchArguments → Bool → Bool → Action N Stream
  -- what `async for` gets from the stream of a plan until it ends, or what it raises
  pub plan_batches : Stream → Action N (List PlanBatch)
  pub aclose : Stream → Action N (Unit {0})
  pub submit_create_index :
      String
      → List String
      → String
      → String
      → List String
      → ℤ
      → String
      → String
      → WriterOptions
      → Option ℤ
      → Action N (Unit {0})
  pub submit_refresh_index :
      String
      → List String
      → String
      → Option ℤ
      → Option String
      → Option String
      → WriterOptions
      → Option ℤ
      → Action N (Unit {0})
  pub register_index : String → List String → String → String → Action N (Unit {0})
  -- the tuple's fields in the order of IndexStatus, the state unchecked
  pub index_build_status : String → List String → String → Action N IndexStatus
  -- asyncio.wait_for over wait_for_index_build, with a time-out in microseconds
  pub wait_for_index_build : String → List String → String → ℤ → Action N (Unit {0})
  pub list_source_indexes : String → List String → Action N (List IndexValues)
  pub drop_source_index : String → List String → String → Action N (Unit {0})
  -- SessionContext: table, deregister_table, register_view, and sql with collect
  pub frame : String → Action N Frame
  pub frame_schema : Frame → arrow.Schema
  pub deregister_table : String → Action N (Unit {0})
  pub register_view : String → Frame → Action N (Unit {0})
  pub sql_collect : String → Action N (List PlanBatch)
