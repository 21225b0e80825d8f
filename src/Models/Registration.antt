-- ===== src/Models/Registration.antt =====
-- The JSON form of a table registration in transport/models.py. PyArrow's schemas are a parameter.
pub mod RoundTrip
use parqdb.Prelude.{
  String, Bool, true, false, List, [], ◌∷◌, map, Option, some, none, ◌≡◌, if◌then◌else◌,
}
use parqdb.Python.Exceptions.{Result, ok, raise, value_error, type_error, ◌>>=◌, ◌>>◌, map_result}
use parqdb.Python.Value.{
  of_strings, Value, Fields, null, bool, str, arr, obj, of_items, of_entries, get, of_option,
}
use parqdb.Text.Chars.{is_empty, format}
use parqdb.Models.Checks.{
  object, reject_unknown, require_fields, string, boolean, portable_sort_order,
}

-- What PyArrow does: the fields of a schema, its IPC message in base64, and the types' aliases.
pub record Arrow : Type 1 where
  pub Schema : Type 0
  pub DataType : Type 0
  pub schema : List (String × DataType) → Schema
  pub fields : Schema → List (String × DataType)
  pub type_for_alias : String → Option DataType
  pub serialize : Schema → String
  pub read_schema : String → Option Schema
  pub fields-schema : (fs : List (String × DataType)) → fields (schema fs) ≡ fs
  pub read_schema-serialize : (s : Schema) → read_schema (serialize s) ≡ some s
  pub serialize_some : (s : Schema) → is_empty (serialize s) ≡ false

module _ (arrow : Arrow) where
  open arrow use {Schema, DataType, schema, fields, type_for_alias, serialize, read_schema}

  -- A partition column's type: a name, or a type.
  pub data ColumnType : Type 0 where
    alias : String → ColumnType
    type : DataType → ColumnType

  pub record Registration : Type 0 where
    pub name : String
    pub source : String
    pub table_partition_cols : Option (List (String × DataType))
    pub parquet_pruning : Bool
    pub file_extension : String
    pub skip_metadata : Bool
    pub schema : Option Schema
    pub file_sort_order : List (List String)

  unfoldable pub schema_from_base64 : Value → Result Schema
  schema_from_base64 value = do
    encoded ← string value "schema"
    elim (read_schema encoded) [
      | none ↦ raise value_error "schema is not a valid Arrow IPC schema message"
      | some s ↦ ok s
    ]

  unfoldable pub arrow_type : ColumnType → Result DataType
  arrow_type (type t) = ok t
  arrow_type (alias name) = elim (type_for_alias name) [
    | none ↦ raise value_error (format ("unsupported partition column type: " ∷ name ∷ []))
    | some t ↦ ok t
  ]

  unfoldable pub column : String × ColumnType → Result (String × DataType)
  unfolding arrow_type
  column (name, t) = do d ← arrow_type t; ok (name, d)

  unfoldable pub partition_schema : Option (List (String × ColumnType)) → Result Value
  unfolding column
  partition_schema none = ok null
  partition_schema (some columns) = do
    cs ← map_result column columns
    ok (str (serialize (schema cs)))

  abbrev pub of_orders : List (List String) → Value
  of_orders orders = arr (of_items (map of_strings orders))

  -- registration_to_json; `file_sort_order` may be any value.
  unfoldable pub registration_to_json :
      String
      → String
      → Option (List (String × ColumnType))
      → Bool
      → String
      → Bool
      → Option Schema
      → Value
      → Result Value
  unfolding partition_schema
  registration_to_json name source columns pruning extension skip table_schema sort_order = do
    partition ← partition_schema columns
    orders ← portable_sort_order sort_order
    n ← string (str name) "table name"
    s ← string (str source) "source"
    e ← string (str extension) "file_extension"
    ok (
        obj (
          of_entries (
            ("name", str n)
            ∷ ("source", str s)
            ∷ ("partition_schema", partition)
            ∷ ("parquet_pruning", bool pruning)
            ∷ ("file_extension", str e)
            ∷ ("skip_metadata", bool skip)
            ∷ ("schema", of_option (λ x. str (serialize x)) table_schema)
            ∷ ("file_sort_order", of_orders orders)
            ∷ [])))

  abbrev pub registration_fields : List String
  registration_fields =
      "name" ∷ "source" ∷ "partition_schema" ∷ "parquet_pruning" ∷ "file_extension"
      ∷ "skip_metadata" ∷ "schema" ∷ "file_sort_order" ∷ []

  unfoldable pub optional_schema : Value → Result (Option Schema)
  unfolding schema_from_base64
  optional_schema null = ok none
  optional_schema value = do s ← schema_from_base64 value; ok (some s)

  abbrev pub columns_of : Option Schema → Option (List (String × DataType))
  columns_of none = none
  columns_of (some s) = some (fields s)

  unfoldable pub registration_of_body : Fields → Result Registration
  registration_of_body body = do
    reject_unknown body registration_fields "registration"
    require_fields body registration_fields "registration"
    partition ← optional_schema (get body "partition_schema")
    orders ← portable_sort_order (get body "file_sort_order")
    name ← string (get body "name") "table name"
    source ← string (get body "source") "source"
    pruning ← boolean (get body "parquet_pruning") "parquet_pruning"
    extension ← string (get body "file_extension") "file_extension"
    skip ← boolean (get body "skip_metadata") "skip_metadata"
    table_schema ← optional_schema (get body "schema")
    ok (record {
      name = name;
      source = source;
      table_partition_cols = columns_of partition;
      parquet_pruning = pruning;
      file_extension = extension;
      skip_metadata = skip;
      schema = table_schema;
      file_sort_order = orders;
    })

  unfoldable pub registration_from_json : Value → Result Registration
  unfolding registration_of_body
  registration_from_json value = do body ← object value "registration"; registration_of_body body
