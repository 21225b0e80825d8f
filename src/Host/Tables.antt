-- ===== src/Host/Tables.antt =====
-- _EmbeddedSession of session.py: tables and vector queries.
use parqdb.Prelude.{
  String, Bool, true, false, List, [], ◌∷◌, map, Option, some, none, ◌==◌, if◌then◌else◌,
}
use parqdb.Python.Exceptions
use parqdb.Python.Exceptions.{
  Result, ok, err, raise, require, map_result, runtime_error, key_error, type_error, value_error,
  not_implemented_error, overflow_error,
}
use parqdb.Python.Int.{ℤ, pos, equal}
use parqdb.Python.Float.{truncate}
use parqdb.Python.Value.{Value, bool, int, float, str, obj, arr, items, find, get, entries}
use parqdb.Python.Action.{Action, lift, ◌>>=◌, ◌>>◌}
use parqdb.Text.Chars.{is_empty}
use parqdb.Text.Decimal.{to_int}
use parqdb.Text.Trim.{starts_with}
use parqdb.Text.Url.{urlsplit}
use parqdb.Identifier.{TableIdentifier, table_identifier, index_namespace}
use parqdb.Query.{VectorQuery}
use parqdb.Models.Registration.{Arrow}
use parqdb.Host.Native.{Native, SearchArguments}

-- d[key], of what should be a dict.
unfoldable pub item : Value → String → Result Value
item (obj fs) key = elim (find key fs) [ none ↦ raise key_error key | some v ↦ ok v ]
item _ key = raise type_error "value is not subscriptable"

-- int(value)
unfoldable pub to_integer : Value → Result ℤ
to_integer (int n) = ok n
to_integer (bool b) = ok (pos (if b then 1 else 0))
to_integer (str s) = elim (to_int s) [
  | none ↦ raise value_error "invalid literal for int()"
  | some n ↦ ok n
]
to_integer (float x) = truncate x
to_integer _ = raise type_error "int() argument must be a string or a number"

-- for x in value, of what should be a list.
unfoldable pub elements : Value → Result (List Value)
elements (arr xs) = ok (items xs)
elements _ = raise type_error "value is not a list"

-- value.get(key), and value.values().
unfoldable pub get_item : Value → String → Result Value
get_item (obj fs) key = ok (get fs key)
get_item _ key = raise type_error "value has no get"

unfoldable pub values : Value → Result (List Value)
values (obj fs) = ok (map (λ e. e.1) (entries fs))
values _ = raise type_error "value has no values"

-- next(snapshot for snapshot in … if int(snapshot["snapshot-id"]) == snapshot_id); a generator that
-- gives nothing raises StopIteration, which becomes a RuntimeError.
unfoldable pub find_snapshot : ℤ → List Value → Result Value
unfolding item to_integer
find_snapshot wanted [] = raise runtime_error "StopIteration"
find_snapshot wanted (snapshot ∷ snapshots) =
    let rest = find_snapshot wanted snapshots in
    Exceptions.◌>>=◌ (Exceptions.◌>>=◌ (item snapshot "snapshot-id") to_integer)
      (λ n. if equal n wanted then ok snapshot else rest)

is_str : Value → Bool
is_str (str s) = true
is_str _ = false

-- isinstance(value, int), which a bool is.
is_int : Value → Bool
is_int (int n) = true
is_int (bool b) = true
is_int _ = false

is_dict : Value → Bool
is_dict (obj fs) = true
is_dict _ = false

check_table : Value → Result (Unit {0})
check_table table = Exceptions.◌>>=◌ (get_item table "definition-version") λ version.
    Exceptions.◌>>◌
      (require (is_int version) value_error "index table definition version must be an integer")
      (Exceptions.◌>>=◌ (get_item table "properties") λ properties.
        require (is_dict properties) value_error "index table properties must be an object")

-- _prepare_metadata_tables
unfoldable pub prepare_metadata_tables : Value → Result (Unit {0})
unfolding is_str is_int is_dict check_table
prepare_metadata_tables metadata =
    Exceptions.◌>>=◌ (Exceptions.◌>>=◌ (item metadata "current-snapshot-id") to_integer) λ wanted.
      Exceptions.◌>>=◌ (Exceptions.◌>>=◌ (item metadata "snapshots") elements) λ snapshots.
        Exceptions.◌>>=◌ (find_snapshot wanted snapshots) λ snapshot.
          Exceptions.◌>>=◌ (item snapshot "index-provider") λ provider.
            Exceptions.◌>>=◌ (get_item provider "provider") λ name.
              Exceptions.◌>>◌
                (require (is_str name) value_error "index provider name must be a string")
                (Exceptions.◌>>=◌ (Exceptions.◌>>=◌ (item snapshot "index-tables") values)
                  λ tables. Exceptions.◌>>=◌ (map_result check_table tables) λ _. ok tt)

-- _persistent_sort_order
strings_of : List Value → Result (List String)
strings_of [] = ok []
strings_of (str s ∷ keys) = Exceptions.◌>>=◌ (strings_of keys) λ ss. ok (s ∷ ss)
strings_of (_ ∷ keys) =
    raise not_implemented_error
      "persistent Parquet tables currently require string file_sort_order keys"

unfoldable pub persistent_sort_order : Option (List (List Value)) → Result (List (List String))
unfolding strings_of
persistent_sort_order none = ok []
persistent_sort_order (some orders) = map_result strings_of orders

-- _EmbeddedSourceTable, without the DataFrame's own methods.
pub record SourceTable (Frame : Type 0) : Type 0 where
  pub dataframe : Frame
  pub identifier : TableIdentifier
  pub build_source : Option String

-- A DataFrame, or one that is a source table.
pub data Table (Frame : Type 0) : Type 0 where
  plain : Frame → Table Frame
  source_table : SourceTable Frame → Table Frame

module _ {arrow : Arrow} {N Stream Frame : Type 0} (native : Native arrow N Stream Frame) where
  -- _absolute_source_reference
  unfoldable pub absolute_source_reference : String → Result String
  absolute_source_reference reference =
      Exceptions.◌>>=◌ (urlsplit native.check_netloc reference)
        λ parts. ok (if is_empty parts.scheme then native.resolve_path reference else reference)

  unfoldable pub register_parquet :
      String
      → String
      → Option (List (String × arrow.DataType))
      → Bool
      → String
      → Bool
      → Option arrow.Schema
      → Option (List (List Value))
      → Action N (Unit {0})
  register_parquet name path columns pruning extension skip schema order = do
    source ← lift (absolute_source_reference path)
    sort_order ← lift (persistent_sort_order order)
    native.register_parquet name source (elim columns [ none ↦ [] | some cs ↦ cs ]) pruning
        extension skip schema sort_order

  -- str(value)
  text : Value → String
  text (str s) = s
  text v = native.text_of v

  -- _EmbeddedSourceTable.__init__
  new_source_table : Frame → TableIdentifier → String → Option String → SourceTable Frame
  new_source_table dataframe t reference build_source = record {
    dataframe = dataframe;
    identifier = t;
    build_source =
        if starts_with "{" reference
        then build_source
        else elim build_source [ none ↦ some reference | some b ↦ some b ];
  }

  -- The location of the Parquet files, for a Parquet table.
  build_source_of : Value → Result (Option String)
  unfolding text
  build_source_of definition = Exceptions.◌>>=◌ (item definition "provider") λ provider.
      elim provider [
        | str p ↦
            if p == "parquet"
            then (Exceptions.◌>>=◌ (item definition "properties") λ properties.
                Exceptions.◌>>=◌ (item properties "location") λ location. ok (some (text location)))
            else ok none
        | _ ↦ ok none
      ]

  -- What `table` makes of the definition of a persistent table.
  from_definition : Frame → String → Result (Table Frame)
  unfolding build_source_of text new_source_table
  from_definition dataframe definition_json =
      Exceptions.◌>>=◌ (native.loads definition_json) λ definition.
        Exceptions.◌>>=◌ (item definition "identifier") λ raw.
          Exceptions.◌>>=◌ (item raw "catalog") λ catalog.
            Exceptions.◌>>=◌ (Exceptions.◌>>=◌ (item raw "namespace") elements) λ namespace.
              Exceptions.◌>>=◌ (item raw "name") λ name.
                Exceptions.◌>>=◌ (table_identifier (text catalog) (map text namespace) (text name))
                  λ t. Exceptions.◌>>=◌ (build_source_of definition) λ build_source.
                    ok (source_table (new_source_table dataframe t definition_json build_source))

  unfoldable pub table : String → Action N (Table Frame)
  unfolding from_definition
  table name = do
    dataframe ← native.frame name
    definition_json ← native.persistent_table_definition name
    lift (elim definition_json [
      | none ↦ ok (plain dataframe)
      | some json ↦ from_definition dataframe json
    ])

  unfoldable pub deregister_table : String → Action N (Unit {0})
  deregister_table name = do
    _ ← native.drop_table_definition_if_exists name
    native.deregister_table name

  -- _table_definition; the message has the repr of the identifier.
  unfoldable pub table_definition : TableIdentifier → Action N String
  table_definition t = do
    definition ← native.persistent_table_definition_by_identifier t.catalog t.namespace t.name
    lift (elim definition [
      | none ↦ raise value_error "query source is not registered"
      | some d ↦ ok d
    ])

  -- _resolve_query_source
  unfoldable pub resolve_query_source : VectorQuery → Action N String
  resolve_query_source q = table_definition q.source

  -- _prepare_index_tables
  unfoldable pub prepare_tables : VectorQuery → String → Action N (Unit {0})
  prepare_tables q source = do
    json ← native.select_index_metadata source (index_namespace q.source) q.index q.column
    metadata ← lift (native.loads json)
    lift (prepare_metadata_tables metadata)

  unfoldable pub prepare_index_tables : VectorQuery → String → Action N (Unit {0})
  unfolding prepare_tables
  prepare_index_tables q source = if q.bypass_index then lift (ok tt) else prepare_tables q source

  abbrev pub search_arguments : VectorQuery → String → SearchArguments
  search_arguments q source = record {
    source = source;
    index_namespace = index_namespace q.source;
    query = q.query;
    index = q.index;
    column = q.column;
    nprobe = q.probe_count;
    limit = q.result_limit;
    projection = q.projection;
    filter = q.predicate;
    bypass_index = q.bypass_index;
  }

  unfoldable pub to_dataframe : VectorQuery → Action N Frame
  to_dataframe q = do
    source ← resolve_query_source q
    prepare_index_tables q source
    native.plan_search (search_arguments q source)

  unfoldable pub to_sql : VectorQuery → Action N String
  to_sql q = do
    source ← resolve_query_source q
    prepare_index_tables q source
    native.search_sql (search_arguments q source)
