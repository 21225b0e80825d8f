-- ===== src/Models/Statuses.antt =====
-- The JSON forms of an index status and of index metadata in transport/models.py.
pub mod RoundTrip
use parqdb.Prelude.{
  String, Bool, true, false, ◌||◌, List, [], ◌∷◌, map, Option, some, none, if◌then◌else◌,
}
use parqdb.Python.Exceptions.{Result, ok, raise, require, value_error, type_error, ◌>>=◌, ◌>>◌}
use parqdb.Python.Value.{
  Value, Fields, end, field, null, int, float, str, arr, obj, of_entries, get, of_option,
}
use parqdb.Text.Chars.{member}
use parqdb.Status.{IndexStatus, IndexInfo}
use parqdb.Models.Checks.{
  object, reject_unknown, require_fields, string, optional_string, optional_number,
  optional_non_negative_integer, non_negative_integer,
}

unfoldable pub index_status_to_json : IndexStatus → Value
index_status_to_json s = obj (
    of_entries (
      ("state", str s.state)
      ∷ ("progress", of_option float s.progress)
      ∷ ("phase", of_option str s.phase)
      ∷ ("completed", of_option int s.completed)
      ∷ ("total", of_option int s.total)
      ∷ ("current_snapshot_id", of_option int s.current_snapshot_id)
      ∷ ("error", of_option str s.error)
      ∷ ("error_code", of_option str s.error_code)
      ∷ []))

abbrev pub status_fields : List String
status_fields =
    "state" ∷ "progress" ∷ "phase" ∷ "completed" ∷ "total" ∷ "current_snapshot_id" ∷ "error"
    ∷ "error_code" ∷ []

abbrev pub states : List String
states = "pending" ∷ "building" ∷ "ready" ∷ "failed" ∷ []

-- state in {…}; a list or a dict has no hash.
unfoldable pub state_of : Value → Result String
state_of (str s) =
    if member s states then ok s else raise value_error "index status contains an invalid state"
state_of (arr _) = raise type_error "unhashable type: 'list'"
state_of (obj _) = raise type_error "unhashable type: 'dict'"
state_of _ = raise value_error "index status contains an invalid state"

-- (error is None) == (error_code is None)
abbrev pub paired : Option String → Option String → Bool
paired none none = true
paired (some _) (some _) = true
paired _ _ = false

unfoldable pub status_of_body : Fields → Result IndexStatus
status_of_body body = do
  reject_unknown body status_fields "index status"
  require_fields body status_fields "index status"
  state ← state_of (get body "state")
  error ← optional_string (get body "error") "error"
  error_code ← optional_string (get body "error_code") "error_code"
  require (paired error error_code) value_error
      "index status error and error_code must both be null or set"
  progress ← optional_number (get body "progress") "progress"
  phase ← optional_string (get body "phase") "phase"
  completed ← optional_non_negative_integer (get body "completed") "completed"
  total ← optional_non_negative_integer (get body "total") "total"
  snapshot ← optional_non_negative_integer (get body "current_snapshot_id") "current_snapshot_id"
  ok (record {
    state = state;
    progress = progress;
    phase = phase;
    completed = completed;
    total = total;
    current_snapshot_id = snapshot;
    error = error;
    error_code = error_code;
  })

unfoldable pub index_status_from_json : Value → Result IndexStatus
unfolding status_of_body
index_status_from_json value = do body ← object value "index status"; status_of_body body

of_parameters : List (String × String) → Fields
of_parameters [] = end
of_parameters ((k, v) ∷ ps) = field k (str v) (of_parameters ps)

unfoldable pub index_info_to_json : IndexInfo → Value
unfolding of_parameters
index_info_to_json i = obj (
    of_entries (
      ("name", str i.name)
      ∷ ("column", str i.column)
      ∷ ("family", str i.family)
      ∷ ("metric", str i.metric)
      ∷ ("parameters", obj (of_parameters i.parameters))
      ∷ ("current_snapshot_id", int i.current_snapshot_id)
      ∷ []))

abbrev pub info_fields : List String
info_fields = "name" ∷ "column" ∷ "family" ∷ "metric" ∷ "parameters" ∷ "current_snapshot_id" ∷ []

parameters_of : Fields → Result (List (String × String))
parameters_of end = ok []
parameters_of (field k v fs) = do
  name ← string (str k) "index parameter name"
  value ← string v "index parameter value"
  rest ← parameters_of fs
  ok ((name, value) ∷ rest)

unfoldable pub info_of_body : Fields → Result IndexInfo
unfolding parameters_of
info_of_body body = do
  reject_unknown body info_fields "index metadata"
  require_fields body info_fields "index metadata"
  fields ← object (get body "parameters") "index parameters"
  parameters ← parameters_of fields
  name ← string (get body "name") "index name"
  column ← string (get body "column") "index column"
  family ← string (get body "family") "index family"
  metric ← string (get body "metric") "index metric"
  snapshot ← non_negative_integer (get body "current_snapshot_id") "current_snapshot_id"
  ok (record {
    name = name;
    column = column;
    family = family;
    metric = metric;
    parameters = parameters;
    current_snapshot_id = snapshot;
  })

unfoldable pub index_info_from_json : Value → Result IndexInfo
unfolding info_of_body
index_info_from_json value = do body ← object value "index metadata"; info_of_body body
