-- ===== src/Tests/Settings.antt =====
-- A server's configuration over paths that are texts.
use parqdb.Prelude.{String, [], ◌∷◌, none, ◌==◌, ◌≡◌, refl, if◌then◌else◌}
use parqdb.Python.Exceptions.{Result, ok}
use parqdb.Python.Int.{pos}
use parqdb.Python.Value.{Value, int, obj, of_strings, of_entries}
use parqdb.Text.Chars.{format, to_char, strip_prefix}
use parqdb.Text.Trim.{starts_with}
use parqdb.Text.Decimal.{is_space}
use parqdb.Text.Url.{urlsplit, lower}
use parqdb.Models.Checks.{least}
use parqdb.Settings.{
  Paths, ServerConfig, has_space, table, only_keys, string, optional_string, port_of, string_table,
  defaults, local_path, source_prefix, source_prefixes, from_document,
}
use parqdb.Settings.Loaded.{IsLoaded, from_document-IsLoaded}

abbrev text_paths : Paths
text_paths = record {
  FilePath = String;
  expanduser = λ s. if s == "./parqdb" then "parqdb" else s;
  is_absolute = λ p. starts_with "/" p;
  beside = λ d p. format (d ∷ "/" ∷ p ∷ []);
  resolve = λ p. p;
  text = λ p. p;
}

abbrev any_netloc : String → Result (Unit {0})
any_netloc s = ok tt

abbrev document : Value
document = obj (
    of_entries (
      (
        "server",
        obj (
            of_entries (
              ("port", int (pos 9000))
              ∷ ("allowed_source_prefixes", of_strings ("s3://lake/" ∷ "files" ∷ []))
              ∷ [])),
      )
      ∷ []))

abbrev loaded : ServerConfig text_paths any_netloc
loaded = record {
  root = "/srv/parqdb";
  host = "127.0.0.1";
  port = pos 9000;
  warehouse = none;
  allowed_source_prefixes = "s3://lake/" ∷ "/srv/files" ∷ [];
  storage_options = [];
  session_options = [];
}

loaded_lem : from_document text_paths any_netloc document "/srv" ≡ ok loaded
unfolding from_document table only_keys least string has_space port_of local_path optional_string
    source_prefixes source_prefix string_table defaults is_space urlsplit lower to_char format
    strip_prefix
loaded_lem = refl

from_document-IsLoaded_example : IsLoaded text_paths any_netloc "/srv" loaded
from_document-IsLoaded_example =
    from_document-IsLoaded text_paths any_netloc document "/srv" loaded loaded_lem
