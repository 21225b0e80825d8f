-- ===== src/Models/Paths.antt =====
-- The path form of a table identifier: encode_identifier_path, decode_identifier_path and
-- identifier_matches_path of transport/models.py.
pub mod RoundTrip
use Prim.Native.String
use parqdb.Prelude.{
  String, Char, code, Bool, true, false, ◌&&◌, ◌||◌, ◌==◌, List, [], ◌∷◌, ◌++◌, map, eqb, any,
  if◌then◌else◌,
}
use parqdb.Python.Exceptions.{Result, ok, raise, value_error, ◌>>=◌}
use parqdb.Text.Chars.{is_empty, contains}
use parqdb.Text.Split.{split, join, one}
use parqdb.Text.Quote.{quote, unquote}
use parqdb.Identifier.{TableIdentifier}

abbrev delimiter_message : String
delimiter_message = "delimiter must be one character other than '/' or '%'"

-- _identifier_delimiter: the one character of an accepted delimiter.
unfoldable pub identifier_delimiter : String → Result Char
identifier_delimiter String.[] = raise value_error "delimiter must be a non-empty string"
identifier_delimiter (String.◌∷◌ d String.[]) =
    if eqb (code d) b'/' || eqb (code d) b'%' then raise value_error delimiter_message else ok d
identifier_delimiter _ = raise value_error delimiter_message

-- (*identifier.namespace, identifier.name)
abbrev pub path_segments : TableIdentifier → List String
path_segments t = t.namespace ++ t.name ∷ []

unfoldable pub encode_segments : Char → List String → Result (String × String)
encode_segments d segments =
    if any (contains d) segments
    then raise value_error "identifier delimiter must not occur in a table identifier"
    else ok (join (one d) (map (quote "") segments), one d)

unfoldable pub encode_identifier_path : TableIdentifier → String → Result (String × String)
unfolding encode_segments
encode_identifier_path t delimiter = do
  d ← identifier_delimiter delimiter
  encode_segments d (path_segments t)

unfoldable pub check_segments : List String → Result (List String)
check_segments segments =
    if any is_empty segments
    then raise value_error "table identifier contains an empty segment"
    else ok segments

unfoldable pub decode_identifier_path : String → String → Result (List String)
unfolding check_segments
decode_identifier_path value delimiter = do
  d ← identifier_delimiter delimiter
  if is_empty value
      then raise value_error "table identifier must not be empty"
      else check_segments (map unquote (split d value))

abbrev same_segments : List String → List String → Bool
same_segments [] [] = true
same_segments (s ∷ ss) (t ∷ ts) = s == t && same_segments ss ts
same_segments _ _ = false

unfoldable pub identifier_matches_path : TableIdentifier → List String → Bool
identifier_matches_path t path = same_segments (path_segments t) path
