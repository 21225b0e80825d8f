-- ===== src/Models/Identifiers.antt =====
-- identifier_to_json and identifier_from_json of transport/models.py.
pub mod RoundTrip
use parqdb.Prelude.{String, List, [], ◌∷◌, map}
use parqdb.Python.Exceptions.{Result, ok, raise, value_error, ◌>>=◌, ◌>>◌}
use parqdb.Python.Value.{Value, Fields, str, arr, obj, items, of_items, of_entries, get}
use parqdb.Identifier.{TableIdentifier, table_identifier}
use parqdb.Models.Checks.{object, reject_unknown, string, strings}

unfoldable pub identifier_to_json : TableIdentifier → Value
identifier_to_json t = obj (
    of_entries (
      ("catalog", str t.catalog)
      ∷ ("namespace", arr (of_items (map str t.namespace)))
      ∷ ("name", str t.name)
      ∷ []))

abbrev pub identifier_fields : List String
identifier_fields = "catalog" ∷ "namespace" ∷ "name" ∷ []

-- isinstance(value, list)
namespace_segments : Value → Result (List String)
namespace_segments (arr segments) = strings (items segments) "namespace segment"
namespace_segments _ = raise value_error "namespace must be an array of strings"

identifier_of_body : Fields → Result TableIdentifier
unfolding namespace_segments
identifier_of_body body = do
  reject_unknown body identifier_fields "table identifier"
  catalog ← string (get body "catalog") "catalog"
  name ← string (get body "name") "name"
  namespace ← namespace_segments (get body "namespace")
  table_identifier catalog namespace name

unfoldable pub identifier_from_json : Value → Result TableIdentifier
unfolding identifier_of_body
identifier_from_json value = do body ← object value "table identifier"; identifier_of_body body
