-- ===== src/Settings.antt =====
-- server/config.py: the configuration of a server from a TOML document, and which one `parqdb serve`
-- of cli.py takes. A document is a dynamically typed value.
pub mod Loaded
use parqdb.Prelude.{
  ℕ, String, Char, code, Bool, true, false, not, ◌&&◌, ◌||◌, List, [], ◌∷◌, map, Option, some, none,
  ◌==◌, leb, if◌then◌else◌,
}
use Prim.Native.String
use parqdb.Python.Exceptions.{
  Result, ExceptionClass, Exception, ok, err, raise, require, map_result, convert, is_instance,
  value_error, os_error, file_exists_error, ◌>>=◌, ◌>>◌,
}
use parqdb.Python.Int.{ℤ, pos, is_positive, at_most}
use parqdb.Python.Value.{
  Value, Fields, null, int, str, arr, obj, end, nil, items, entries, get, get_or,
}
use parqdb.Text.Chars.{is_empty, format}
use parqdb.Text.Decimal.{is_space}
use parqdb.Text.Url.{urlsplit}
use parqdb.Models.Checks.{least, without, reject}
use parqdb.Python.Value.{keys}

-- What pathlib does: Path(text).expanduser(), is_absolute, `/`, resolve and str.
pub record Paths : Type 1 where
  pub FilePath : Type 0
  pub expanduser : String → FilePath
  pub is_absolute : FilePath → Bool
  pub beside : FilePath → FilePath → FilePath
  pub resolve : FilePath → FilePath
  pub text : FilePath → String

-- any(character.isspace() for character in s)
unfoldable pub has_space : String → Bool
has_space String.[] = false
has_space (String.◌∷◌ c s) = is_space (code c) || has_space s

-- _table; the keys of a document are texts.
unfoldable pub table : Value → String → Result Fields
table (obj fields) name = ok fields
table _ name = raise value_error (format (name ∷ " must be a TOML table" ∷ []))

-- _only_keys
unfoldable pub only_keys : Fields → List String → String → Result (Unit {0})
unfolding least
only_keys fields allowed name =
    reject (least (without (keys fields) allowed)) name " contains unsupported key: "

-- _string
unfoldable pub string : Value → String → Result String
string (str s) name = ok s
string _ name = raise value_error (format (name ∷ " must be a string" ∷ []))

-- _optional_string
unfoldable pub optional_string : Value → String → Result (Option String)
unfolding string
optional_string null name = ok none
optional_string value name = do s ← string value name; ok (some s)

-- _port; a bool is a value of its own here.
unfoldable pub port_of : Value → Result ℤ
port_of (int n) = do
  require (is_positive n && at_most n 65535) value_error
      "server.port must be an integer from 1 through 65535"
  ok n
port_of _ = raise value_error "server.port must be an integer from 1 through 65535"

-- _string_table
strings_of : String → List (String × Value) → Result (List (String × String))
unfolding string
strings_of name [] = ok []
strings_of name (entry ∷ rest) = do
  s ← string entry.1 (format (name ∷ "." ∷ entry.0 ∷ []))
  ss ← strings_of name rest
  ok ((entry.0, s) ∷ ss)

unfoldable pub string_table : Value → String → Result (List (String × String))
unfolding table strings_of
string_table value name = do fields ← table value name; strings_of name (entries fields)

module _ (paths : Paths) (check_netloc : String → Result (Unit {0})) where
  open paths use {FilePath, expanduser, is_absolute, beside, resolve, text}

  pub record ServerConfig : Type 0 where
    pub root : FilePath
    pub host : String
    pub port : ℤ
    pub warehouse : Option String
    pub allowed_source_prefixes : List String
    pub storage_options : List (String × String)
    pub session_options : List (String × String)

  unfoldable pub defaults : FilePath → ServerConfig
  defaults directory = record {
    root = resolve (beside directory (expanduser "parqdb"));
    host = "127.0.0.1";
    port = pos 8000;
    warehouse = none;
    allowed_source_prefixes = [];
    storage_options = [];
    session_options = [];
  }

  -- A path that is relative to the directory.
  abbrev pub placed : FilePath → FilePath → FilePath
  placed directory path = if is_absolute path then resolve path else resolve (beside directory path)

  -- _local_path
  unfoldable pub local_path : Value → String → FilePath → Result FilePath
  local_path value name directory = do s ← string value name; ok (placed directory (expanduser s))

  -- _source_prefix
  unfoldable pub source_prefix : FilePath → Value → Result String
  source_prefix directory value = do
    source ← string value "server.allowed_source_prefixes entry"
    parsed ← urlsplit check_netloc source
    ok (
        if not (is_empty parsed.scheme) && not (parsed.scheme == "file")
        then source
        else if parsed.scheme == "file"
        then source
        else text (placed directory (expanduser source)))

  -- _source_prefixes
  unfoldable pub source_prefixes : Value → FilePath → Result (List String)
  source_prefixes (arr prefixes) directory = map_result (source_prefix directory) (items prefixes)
  source_prefixes _ directory =
      raise value_error "server.allowed_source_prefixes must be an array of strings"

  abbrev pub server_keys : List String
  server_keys = "root" ∷ "host" ∷ "port" ∷ "warehouse" ∷ "allowed_source_prefixes" ∷ []

  -- _from_document
  unfoldable pub from_document : Value → FilePath → Result ServerConfig
  from_document raw directory = do
    document ← table raw "configuration"
    only_keys document ("server" ∷ "storage" ∷ "session" ∷ []) "configuration"
    server ← table (get_or document "server" (obj end)) "[server]"
    only_keys server server_keys "[server]"
    host ← string (get_or server "host" (str (defaults directory).host)) "server.host"
    require (not (is_empty host || has_space host)) value_error
        "server.host must be a non-empty host name or address"
    port ← port_of (get_or server "port" (int (defaults directory).port))
    root ← local_path (get_or server "root" (str "./parqdb")) "server.root" directory
    warehouse ← optional_string (get server "warehouse") "server.warehouse"
    prefixes ← source_prefixes (get_or server "allowed_source_prefixes" (arr nil)) directory
    storage ← string_table (get_or document "storage" (obj end)) "[storage]"
    session ← string_table (get_or document "session" (obj end)) "[session]"
    ok (record {
      root = root;
      host = host;
      port = port;
      warehouse = warehouse;
      allowed_source_prefixes = prefixes;
      storage_options = storage;
      session_options = session;
    })

  -- ServerConfig.session_config, without the call of the engine.
  unfoldable pub session_config : ServerConfig → Option (List (String × String))
  session_config c = elim c.session_options [ [] ↦ none | o ∷ os ↦ some (o ∷ os) ]

  -- What reading a configuration asks of the files: read_text, tomllib.loads, the parent of a path,
  -- and whether a path exists.
  pub record Files : Type 0 where
    pub read_text : FilePath → Result String
    pub loads : String → Result Value
    pub parent : FilePath → FilePath
    pub exists : FilePath → Bool

  module _ (files : Files) where
    -- The text of an exception is kept; the code puts the path before it.
    unreadable : Exception → Exception
    unreadable e = record { kind = value_error; message = e.message }

    -- load_server_config; `path` is a path with its `~` expanded.
    unfoldable pub load_server_config : FilePath → Result ServerConfig
    unfolding unreadable
    load_server_config path = do
      source ← convert (λ k. is_instance k os_error) unreadable (files.read_text (resolve path))
      raw ← convert (λ k. is_instance k value_error) unreadable (files.loads source)
      from_document raw (files.parent (resolve path))

    -- _configuration_for_serve
    unfoldable pub configuration_for_serve : Option FilePath → FilePath → Result ServerConfig
    configuration_for_serve (some path) cwd = load_server_config path
    configuration_for_serve none cwd =
        let default_path = beside cwd (expanduser "parqdb.toml") in
        if files.exists default_path then load_server_config default_path else ok (defaults cwd)
