-- ===== src/Server/Routes.antt =====
-- How server/app.py holds a request's route against its body. The web server hands over a path that
-- is already percent-decoded once, which a parameter stands for.
pub mod Matching
use parqdb.Prelude.{String, Bool, false, not, ◌==◌, List, [], ◌∷◌, ◌≡◌, if◌then◌else◌}
use parqdb.Python.Exceptions.{Result, ok, raise, require, value_error, ◌>>=◌, ◌>>◌}
use parqdb.Python.Value.{Value, Fields, str, get}
use parqdb.Text.Chars.{is_empty, format}
use parqdb.Text.Quote.{unquote}
use parqdb.Identifier.{TableIdentifier}
use parqdb.Models.Identifiers.{identifier_from_json}
use parqdb.Models.Paths.{decode_identifier_path, identifier_matches_path}

-- The route parameters of a request.
pub record Route : Type 0 where
  pub table_id : String
  pub delimiter : String
  pub index_name : String

unfoldable pub validate_route_identifier : Route → TableIdentifier → Result (Unit {0})
validate_route_identifier r t = do
  path ← decode_identifier_path r.table_id r.delimiter
  require (identifier_matches_path t path) value_error
      "route and request table identifiers do not match"

abbrev is_single : List String → String → Bool
is_single (s ∷ []) name = s == name
is_single _ name = false

unfoldable pub validate_registration_route : Route → String → Result (Unit {0})
validate_registration_route r name = do
  path ← decode_identifier_path r.table_id r.delimiter
  require (is_single path name) value_error "route and request table names do not match"

unfoldable pub required_string : Value → String → Result String
required_string (str s) name =
    if is_empty s
    then raise value_error (format (name ∷ " must be a non-empty string" ∷ []))
    else ok s
required_string _ name = raise value_error (format (name ∷ " must be a non-empty string" ∷ []))

unfoldable pub scoped_identifier : Route → Fields → String → Result TableIdentifier
scoped_identifier r body field = do
  t ← identifier_from_json (get body field)
  validate_route_identifier r t
  ok t

unfoldable pub scoped_index : Route → Fields → Result String
scoped_index r body = do
  index ← required_string (get body "index") "index"
  require (unquote r.index_name == index) value_error "route and request index names do not match"
  ok index
