-- ===== src/Http/Routes.antt =====
-- The request paths of transport/http.py.
pub mod Delimiters
use parqdb.Prelude.{String, Char, Bool, not, ◌&&◌, List, [], ◌∷◌, ◌++◌, all, if◌then◌else◌}
use parqdb.Python.Exceptions.{Result, ok, raise, value_error, type_error, ◌>>=◌}
use parqdb.Python.Value.{Value, str}
use parqdb.Text.Chars.{is_empty, contains, format}
use parqdb.Text.Decimal.{strip}
use parqdb.Text.Split.{one, join}
use parqdb.Text.Quote.{quote}
use parqdb.Identifier.{TableIdentifier}
use parqdb.Models.Paths.{path_segments, encode_identifier_path}

-- DEFAULT_IDENTIFIER_DELIMITER and the others that are tried.
abbrev pub candidates : List Char
candidates = "$" ∷ "~" ∷ "!" ∷ "^" ∷ "|" ∷ []

choose : List Char → List String → Result Char
choose [] segments = raise value_error "table identifier contains every supported route delimiter"
choose (d ∷ ds) segments =
    if all (λ s. not (contains d s)) segments then ok d else choose ds segments

unfoldable pub choose_delimiter_for_segments : List String → Result Char
unfolding choose
choose_delimiter_for_segments segments = choose candidates segments

unfoldable pub choose_delimiter : TableIdentifier → Result Char
choose_delimiter t = choose_delimiter_for_segments (path_segments t)

-- The path and the `delimiter` parameter of a request about a table.
unfoldable pub table_path : TableIdentifier → String → Result (String × String)
table_path t operation = do
  d ← choose_delimiter t
  encoded ← encode_identifier_path t (one d)
  ok (format ("v1/table/" ∷ encoded.0 ∷ "/" ∷ operation ∷ []), encoded.1)

unfoldable pub registration_path : Value → Result (String × String)
registration_path (str name) =
    if is_empty name then raise value_error "table name must not be empty" else (do
      d ← choose_delimiter_for_segments (name ∷ [])
      ok (format ("v1/table/" ∷ quote "" name ∷ "/register" ∷ []), one d))
registration_path _ = raise type_error "table name must be a string"

unfoldable pub index_path : TableIdentifier → Value → String → Result (String × String)
index_path t (str index) operation =
    if is_empty (strip index)
    then raise value_error "index name must not be empty"
    else table_path t (format ("index/" ∷ quote "" index ∷ "/" ∷ operation ∷ []))
index_path t _ operation = raise type_error "index name must be a string"

unfoldable pub identifier_reference : TableIdentifier → String
identifier_reference t = join "." (t.catalog ∷ (t.namespace ++ t.name ∷ []))
