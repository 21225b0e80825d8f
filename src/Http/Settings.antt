-- ===== src/Http/Settings.antt =====
-- The settings of an HTTP client in transport/http.py: the base URL and the timeout.
use parqdb.Prelude.{[], ◌∷◌, String, Bool, not, ◌&&◌, ◌||◌, ◌==◌, eqb, some, none, if◌then◌else◌}
use parqdb.Python.Int.{is_positive}
use parqdb.Python.Float
use parqdb.Python.Float.{Float}
use parqdb.Python.Exceptions.{
  Result, ok, raise, require, value_error, type_error, overflow_error, ◌>>=◌, ◌>>◌,
}
use parqdb.Python.Value.{Value, int, float, str}
use parqdb.Text.Chars.{is_empty, format}
use parqdb.Text.Trim.{rstrip}
use parqdb.Text.Url.{urlsplit}

-- _base_url; urlsplit's own check of an authority is a parameter.
unfoldable pub base_url : (String → Result (Unit {0})) → Value → Result String
base_url check_netloc (str value) = do
  parsed ← urlsplit check_netloc value
  require ((parsed.scheme == "http" || parsed.scheme == "https") && not (is_empty parsed.netloc))
      value_error "server URL must use http or https"
  require (is_empty parsed.query && is_empty parsed.fragment) value_error
      "server URL must not contain a query or fragment"
  ok (format (rstrip "/" value ∷ "/" ∷ []))
base_url check_netloc _ = raise type_error "server URL must be a string"

-- x <= 0, which is false of a NaN
abbrev at_most_zero : Float → Bool
at_most_zero x =
    not (eqb x.exponent 2047 && not (eqb x.fraction 0))
    && (x.negative || (eqb x.exponent 0 && eqb x.fraction 0))

-- _timeout_seconds; a timedelta is given by its total seconds.
unfoldable pub timeout_seconds : Value → Result Float
timeout_seconds (int n) =
    if is_positive n
    then elim (Float.of_int n) [
      | none ↦ raise overflow_error "int too large to convert to float"
      | some x ↦ ok x
    ]
    else raise value_error "timeout must be positive"
timeout_seconds (float x) =
    if at_most_zero x then raise value_error "timeout must be positive" else ok x
timeout_seconds _ = raise value_error "timeout must be positive"
