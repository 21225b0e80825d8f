-- ===== src/Facade/Vectors.antt =====
-- The vector queries that a table of facade.py makes: _vector_query, with _normalize_query of
-- table.py.
use parqdb.Prelude.{
  ℕ, String, false, ◌||◌, List, [], ◌∷◌, map, Option, some, none, eqb, if◌then◌else◌,
}
use parqdb.Python.Exceptions.{
  Result, is_instance, ok, raise, convert, map_result, type_error, value_error, overflow_error,
  ◌>>=◌,
}
use parqdb.Python.Int.{pos}
use parqdb.Python.Float.{Float, of_int}
use parqdb.Python.Value.{Value, bool, int, float, str, arr, obj, items, keys}
use parqdb.Identifier.{TableIdentifier}
use parqdb.Query.{VectorQuery}

-- What a caller may search for: a value, or an array with its number of dimensions and its list.
pub data Vector : Type 0 where
  plain : Value → Vector
  array : ℕ → Value → Vector

module _ (float_of_text : String → Option Float) where
  characters : String → List Value
  characters String.[] = []
  characters (String.◌∷◌ c s) = str (String.◌∷◌ c "") ∷ characters s

  -- float(value)
  to_float : Value → Result Float
  to_float (float x) = ok x
  to_float (int n) = elim (of_int n) [
    | none ↦ raise overflow_error "int too large to convert to float"
    | some x ↦ ok x
  ]
  to_float (bool b) = elim (of_int (pos (if b then 1 else 0))) [
    | none ↦ raise overflow_error "int too large to convert to float"
    | some x ↦ ok x
  ]
  to_float (str s) = elim (float_of_text s) [
    | none ↦ raise value_error "could not convert string to float"
    | some x ↦ ok x
  ]
  to_float _ = raise type_error "float() argument must be a string or a real number"

  not_numeric : String
  not_numeric = "query must be a one-dimensional iterable of numeric values"

  -- The elements that iterating gives: a list's, a text's characters, a dict's keys.
  iterated : Value → Result (List Value)
  unfolding not_numeric characters
  iterated (arr xs) = ok (items xs)
  iterated (str s) = ok (characters s)
  iterated (obj fs) = ok (map str (keys fs))
  iterated _ = raise value_error not_numeric

  floats : Value → Result (List Float)
  unfolding iterated to_float not_numeric
  floats values = do
    elements ← iterated values
    convert (λ k. is_instance k type_error || is_instance k value_error)
        (λ _. record { kind = value_error; message = not_numeric }) (map_result to_float elements)

  -- _normalize_query
  unfoldable pub normalize_query : Vector → Result (List Float)
  unfolding floats
  normalize_query (plain values) = floats values
  normalize_query (array ndim values) =
      if eqb ndim 1
      then floats values
      else raise value_error "query must be a one-dimensional vector"

  -- _vector_query
  unfoldable pub vector_query :
      TableIdentifier → Vector → Option String → Option String → Result VectorQuery
  vector_query t query column index = do
    vector ← normalize_query query
    ok (record {
      source = t;
      query = vector;
      column = column;
      index = index;
      projection = none;
      result_limit = pos 10;
      probe_count = none;
      predicate = none;
      bypass_index = false;
    })
