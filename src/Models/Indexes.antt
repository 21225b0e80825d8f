-- ===== src/Models/Indexes.antt =====
-- The JSON forms of an index configuration and of writer options in transport/models.py.
pub mod RoundTrip
pub mod Validity
use parqdb.Prelude.{String, Bool, false, ◌==◌, List, [], ◌∷◌, Option, some, none}
use parqdb.Python.Exceptions.{Result, ok, raise, require, value_error, ◌>>=◌, ◌>>◌}
use parqdb.Python.Value.{of_option, Value, Fields, null, int, str, obj, of_entries, get}
use parqdb.Config.{Ivf, ivf, WriteOptions, write_options}
use parqdb.Models.Checks.{
  object, reject_unknown, require_fields, string, positive_integer, optional_positive_integer,
}

unfoldable pub ivf_to_json : Ivf → Value
ivf_to_json c = obj (
    of_entries (
      ("type", str "ivf")
      ∷ ("nlist", int c.nlist)
      ∷ ("encoding", str c.encoding)
      ∷ ("metric", str c.metric)
      ∷ []))

abbrev pub ivf_fields : List String
ivf_fields = "type" ∷ "nlist" ∷ "encoding" ∷ "metric" ∷ []

-- value == "ivf"
abbrev is_ivf : Value → Bool
is_ivf (str s) = s == "ivf"
is_ivf _ = false

unfoldable pub ivf_of_body : Fields → Result Ivf
ivf_of_body body = do
  reject_unknown body ivf_fields "index configuration"
  require_fields body ivf_fields "index configuration"
  require (is_ivf (get body "type")) value_error "index configuration type must be 'ivf'"
  nlist ← positive_integer (get body "nlist") "nlist"
  encoding ← string (get body "encoding") "encoding"
  metric ← string (get body "metric") "metric"
  ivf (int nlist) (str encoding) (str metric)

unfoldable pub ivf_from_json : Value → Result Ivf
unfolding ivf_of_body
ivf_from_json value = do body ← object value "index configuration"; ivf_of_body body

unfoldable pub writer_options_to_json : Option WriteOptions → Value
writer_options_to_json none = null
writer_options_to_json (some w) = obj (
    of_entries (
      ("partitions", of_option int w.partitions)
      ∷ ("compression", str w.compression)
      ∷ ("target_file_size", int w.target_file_size)
      ∷ ("max_row_group_rows", of_option int w.max_row_group_rows)
      ∷ ("write_batch_rows", int w.write_batch_rows)
      ∷ []))

abbrev pub writer_fields : List String
writer_fields =
    "partitions" ∷ "compression" ∷ "target_file_size" ∷ "max_row_group_rows" ∷ "write_batch_rows"
    ∷ []

unfoldable pub writer_of_body : Fields → Result WriteOptions
writer_of_body body = do
  reject_unknown body writer_fields "writer options"
  require_fields body writer_fields "writer options"
  partitions ← optional_positive_integer (get body "partitions") "partitions"
  rows ← optional_positive_integer (get body "max_row_group_rows") "max_row_group_rows"
  compression ← string (get body "compression") "compression"
  target_file_size ← positive_integer (get body "target_file_size") "target_file_size"
  write_batch_rows ← positive_integer (get body "write_batch_rows") "write_batch_rows"
  write_options (of_option int partitions) (str compression) (int target_file_size)
      (of_option int rows) (int write_batch_rows)

unfoldable pub writer_options_from_json : Value → Result (Option WriteOptions)
unfolding writer_of_body
writer_options_from_json null = ok none
writer_options_from_json value = do
  body ← object value "writer options"
  options ← writer_of_body body
  ok (some options)
