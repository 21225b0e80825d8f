-- ===== src/Models/Queries.antt =====
-- vector_query_to_json and vector_query_from_json of transport/models.py.
pub mod RoundTrip
use parqdb.Prelude.{String, Bool, true, false, List, [], ◌∷◌, map, Option, some, none}
use parqdb.Python.Exceptions.{Result, ok, raise, value_error, ◌>>=◌, ◌>>◌, map_result}
use parqdb.Python.Int.{ℤ, pos}
use parqdb.Python.Float.{Float}
use parqdb.Python.Value.{
  of_strings, of_option, Value, Fields, null, bool, int, float, str, arr, obj, cons, items,
  of_items, of_entries, get, get_or,
}
use parqdb.Query.{VectorQuery}
use parqdb.Models.Checks.{
  object, reject_unknown, string, strings, optional_string, positive_integer,
  optional_positive_integer, finite,
}
use parqdb.Models.Identifiers.{identifier_to_json, identifier_from_json}

unfoldable pub vector_query_to_json : VectorQuery → Value
vector_query_to_json q = obj (
    of_entries (
      ("source", identifier_to_json q.source)
      ∷ ("query", arr (of_items (map float q.query)))
      ∷ ("column", of_option str q.column)
      ∷ ("index", of_option str q.index)
      ∷ ("projection", of_option of_strings q.projection)
      ∷ ("result_limit", int q.result_limit)
      ∷ ("probe_count", of_option int q.probe_count)
      ∷ ("predicate", of_option str q.predicate)
      ∷ ("bypass_index", bool q.bypass_index)
      ∷ []))

abbrev pub query_fields : List String
query_fields =
    "source" ∷ "query" ∷ "column" ∷ "index" ∷ "projection" ∷ "result_limit" ∷ "probe_count"
    ∷ "predicate" ∷ "bypass_index" ∷ []

abbrev pub vector_message : String
vector_message = "query must be a non-empty array of finite numbers"

-- The loop over the `query` array.
unfoldable pub vector : Value → Result (List Float)
vector (arr (cons v vs)) = map_result (λ x. finite x vector_message) (v ∷ items vs)
vector _ = raise value_error vector_message

unfoldable pub projection_of : Value → Result (Option (List String))
projection_of null = ok none
projection_of (arr fields) = do ss ← strings (items fields) "projection field"; ok (some ss)
projection_of _ = raise value_error "projection must be an array of strings or null"

unfoldable pub bypass_of : Value → Result Bool
bypass_of (bool b) = ok b
bypass_of _ = raise value_error "bypass_index must be a boolean"

unfoldable pub query_of_body : Fields → Result VectorQuery
query_of_body body = do
  reject_unknown body query_fields "vector query"
  query ← vector (get body "query")
  projection ← projection_of (get body "projection")
  result_limit ← positive_integer (get_or body "result_limit" (int (pos 10))) "result_limit"
  probe_count ← optional_positive_integer (get body "probe_count") "probe_count"
  bypass_index ← bypass_of (get_or body "bypass_index" (bool false))
  source ← identifier_from_json (get body "source")
  column ← optional_string (get body "column") "column"
  index ← optional_string (get body "index") "index"
  predicate ← optional_string (get body "predicate") "predicate"
  ok (record {
    source = source;
    query = query;
    column = column;
    index = index;
    projection = projection;
    result_limit = result_limit;
    probe_count = probe_count;
    predicate = predicate;
    bypass_index = bypass_index;
  })

unfoldable pub vector_query_from_json : Value → Result VectorQuery
unfolding query_of_body
vector_query_from_json value = do body ← object value "vector query"; query_of_body body
