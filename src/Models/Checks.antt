-- ===== src/Models/Checks.antt =====
-- The private checks of transport/models.py, on dynamically typed values.
pub mod Laws
use Prim.Native.String.{compare}
use text.Mathlib.Text.{is_lt}
use parqdb.Prelude.{
  String, Bool, true, false, not, List, [], ◌∷◌, Option, some, none, if◌then◌else◌,
}
use parqdb.Python.Exceptions.{
  Result, ok, err, raise, value_error, overflow_error, ◌>>=◌, map_result,
}
use parqdb.Python.Int.{ℤ, is_positive, is_non_negative}
use parqdb.Python.Float
use parqdb.Python.Float.{Float}
use parqdb.Python.Value.{Value, Fields, null, bool, int, float, str, arr, obj, items, keys}
use parqdb.Text.Chars.{is_empty, format, member}

-- `sorted(names)[0]`, if there is one.
unfoldable pub least : List String → Option String
least [] = none
least (s ∷ ss) = elim (least ss) [
  | none ↦ some s
  | some t ↦ some (if is_lt (compare t s) then t else s)
]

-- The names of the first list that the second lacks.
abbrev pub without : List String → List String → List String
without [] known = []
without (s ∷ ss) known = if member s known then without ss known else s ∷ without ss known

unfoldable pub object : Value → String → Result Fields
object (obj fields) name = ok fields
object _ name = raise value_error (format (name ∷ " must be a JSON object" ∷ []))

abbrev pub reject : Option String → String → String → Result (Unit {0})
reject none name what = ok tt
reject (some field) name what = raise value_error (format (name ∷ what ∷ field ∷ []))

unfoldable pub reject_unknown : Fields → List String → String → Result (Unit {0})
unfolding least
reject_unknown body fields name =
    reject (least (without (keys body) fields)) name " contains unknown field: "

unfoldable pub require_fields : Fields → List String → String → Result (Unit {0})
unfolding least
require_fields body fields name =
    reject (least (without fields (keys body))) name " is missing required field: "

unfoldable pub string : Value → String → Result String
string (str s) name =
    if is_empty s
    then raise value_error (format (name ∷ " must be a non-empty string" ∷ []))
    else ok s
string _ name = raise value_error (format (name ∷ " must be a non-empty string" ∷ []))

unfoldable pub optional_string : Value → String → Result (Option String)
unfolding string
optional_string null name = ok none
optional_string value name = do s ← string value name; ok (some s)

unfoldable pub positive_integer : Value → String → Result ℤ
positive_integer (int n) name =
    if is_positive n
    then ok n
    else raise value_error (format (name ∷ " must be a positive integer" ∷ []))
positive_integer _ name = raise value_error (format (name ∷ " must be a positive integer" ∷ []))

unfoldable pub non_negative_integer : Value → String → Result ℤ
non_negative_integer (int n) name =
    if is_non_negative n
    then ok n
    else raise value_error (format (name ∷ " must be a non-negative integer" ∷ []))
non_negative_integer _ name =
    raise value_error (format (name ∷ " must be a non-negative integer" ∷ []))

unfoldable pub optional_positive_integer : Value → String → Result (Option ℤ)
unfolding positive_integer
optional_positive_integer null name = ok none
optional_positive_integer value name = do n ← positive_integer value name; ok (some n)

unfoldable pub optional_non_negative_integer : Value → String → Result (Option ℤ)
unfolding non_negative_integer
optional_non_negative_integer null name = ok none
optional_non_negative_integer value name = do n ← non_negative_integer value name; ok (some n)

-- float(value) and math.isfinite, where `message` is that of the check.
unfoldable pub finite : Value → String → Result Float
finite (int n) message = elim (Float.of_int n) [
  | none ↦ raise overflow_error "int too large to convert to float"
  | some x ↦ if Float.is_finite x then ok x else raise value_error message
]
finite (float x) message = if Float.is_finite x then ok x else raise value_error message
finite _ message = raise value_error message

unfoldable pub optional_number : Value → String → Result (Option Float)
unfolding finite
optional_number null name = ok none
optional_number value name = do
  x ← finite value (format (name ∷ " must be a finite number or null" ∷ []))
  ok (some x)

unfoldable pub boolean : Value → String → Result Bool
boolean (bool b) name = ok b
boolean _ name = raise value_error (format (name ∷ " must be a boolean" ∷ []))

-- An array of texts, each non-empty.
unfoldable pub strings : List Value → String → Result (List String)
unfolding string
strings values name = map_result (λ v. string v name) values

-- _portable_sort_order
abbrev sort_message : String
sort_message = "file_sort_order must be an array of field-name arrays"

sort_fields : Value → Result (List String)
unfolding strings
sort_fields (arr order) = strings (items order) "sort field"
sort_fields _ = raise value_error sort_message

unfoldable pub portable_sort_order : Value → Result (List (List String))
unfolding sort_fields
portable_sort_order null = ok []
portable_sort_order (arr orders) = map_result sort_fields (items orders)
portable_sort_order _ = raise value_error sort_message
