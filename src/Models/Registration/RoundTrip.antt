-- ===== src/Models/Registration/RoundTrip.antt =====
-- A registration that the client sent, as the server reads it.
use parqdb.Prelude.{String, Bool, false, List, [], ◌∷◌, Option, some, none, ◌≡◌, refl, sym, arith}
use parqdb.Python.Exceptions.{Result, ok, ◌>>=◌, >>=-eq-ok, ok_injective, map_result}
use parqdb.Python.Value.{Value, str, of_option, obj, bool, of_entries}
use parqdb.Text.Chars.{is_empty}
use parqdb.Models.Checks.{
  object, reject_unknown, require_fields, string, boolean, portable_sort_order,
}
use parqdb.Models.Checks.Laws.{string-str, portable_sort_order-of_strings, portable_sort_order-All}
use parqdb.Models.Registration.{
  Arrow, ColumnType, schema_from_base64, column, partition_schema, columns_of, of_orders,
  registration_to_json, optional_schema, registration_from_json,
}

text_same : (s name t : String) → string (str s) name ≡ ok t → (is_empty s ≡ false) × (s ≡ t)
unfolding string
text_same s name t h = ground arith

module _ (arrow : Arrow) where
  open arrow use {Schema, DataType, schema, fields, serialize, read_schema}

  schema_from_base64-serialize : (s : Schema) → schema_from_base64 arrow (str (serialize s)) ≡ ok s
  unfolding schema_from_base64
  schema_from_base64-serialize s =
      rw (string-str (serialize s) "schema" (arrow.serialize_some s), arrow.read_schema-serialize s)
        refl

  optional_schema-serialize :
      (o : Option Schema) → optional_schema arrow (of_option (λ x. str (serialize x)) o) ≡ ok o
  unfolding optional_schema
  optional_schema-serialize none = refl
  optional_schema-serialize (some s) = rw (schema_from_base64-serialize s) refl

  -- The partition columns with their types looked up.
  pub resolve :
      Option (List (String × ColumnType arrow)) → Result (Option (List (String × DataType)))
  resolve none = ok none
  resolve (some cs) = do ds ← map_result (column arrow) cs; ok (some ds)

  -- The columns that the schema of a partition gives back.
  partition_schema-eq_ok :
      (columns : Option (List (String × ColumnType arrow))) (v : Value)
      → partition_schema arrow columns ≡ ok v
      → (o : Option Schema) × (v ≡ of_option (λ x. str (serialize x)) o)
        × (resolve columns ≡ ok (columns_of arrow o))
  unfolding partition_schema resolve
  partition_schema-eq_ok none v h = (none, sym (ok_injective h), refl)
  partition_schema-eq_ok (some cs) v h =
      let (ds, e, last) = >>=-eq-ok (map_result (column arrow) cs) _ h in
      (some (schema ds), sym (ok_injective last), rw (e, arrow.fields-schema ds) refl)

  body_lem :
      (name source extension : String) (pruning skip : Bool)
      (partition table_schema : Option Schema) (orders : List (List String))
      → is_empty name ≡ false
      → is_empty source ≡ false
      → is_empty extension ≡ false
      → portable_sort_order (of_orders arrow orders) ≡ ok orders
      → registration_from_json arrow (
          obj (
            of_entries (
              ("name", str name)
              ∷ ("source", str source)
              ∷ ("partition_schema", of_option (λ x. str (serialize x)) partition)
              ∷ ("parquet_pruning", bool pruning)
              ∷ ("file_extension", str extension)
              ∷ ("skip_metadata", bool skip)
              ∷ ("schema", of_option (λ x. str (serialize x)) table_schema)
              ∷ ("file_sort_order", of_orders arrow orders)
              ∷ [])))
        ≡ ok (record {
          name = name;
          source = source;
          table_partition_cols = columns_of arrow partition;
          parquet_pruning = pruning;
          file_extension = extension;
          skip_metadata = skip;
          schema = table_schema;
          file_sort_order = orders;
        })
  unfolding registration_from_json object reject_unknown require_fields boolean
  body_lem name source extension pruning skip partition table_schema orders n s e p =
      rw
        (
          optional_schema-serialize partition,
          optional_schema-serialize table_schema,
          p,
          string-str name "table name" n,
          string-str source "source" s,
          string-str extension "file_extension" e,
        )
        refl

  -- Whatever registration message the client makes, the server reads from it the same name,
  -- source, flags, extension and schema, the partition columns with their types resolved, and
  -- the sort order that the client checked.
  pub registration_from_json-to_json :
      (name source extension : String) (columns : Option (List (String × ColumnType arrow)))
      (pruning skip : Bool) (table_schema : Option Schema) (sort_order v : Value)
      → registration_to_json arrow name source columns pruning extension skip table_schema
          sort_order
        ≡ ok v
      → (ds : Option (List (String × DataType))) × (orders : List (List String)) × (resolve columns
          ≡ ok ds)
        × (portable_sort_order sort_order ≡ ok orders)
        × (registration_from_json arrow v
            ≡ ok (record {
              name = name;
              source = source;
              table_partition_cols = ds;
              parquet_pruning = pruning;
              file_extension = extension;
              skip_metadata = skip;
              schema = table_schema;
              file_sort_order = orders;
            }))
  unfolding registration_to_json
  registration_from_json-to_json name source extension columns pruning skip table_schema sort_order
        v h =
      let (partition, e1, h1) = >>=-eq-ok (partition_schema arrow columns) _ h in
      let (orders, e2, h2) = >>=-eq-ok (portable_sort_order sort_order) _ h1 in
      let (n, e3, h3) = >>=-eq-ok (string (str name) "table name") _ h2 in
      let (s, e4, h4) = >>=-eq-ok (string (str source) "source") _ h3 in
      let (x, e5, h5) = >>=-eq-ok (string (str extension) "file_extension") _ h4 in
      let (o, same, resolved) = partition_schema-eq_ok columns partition e1 in
      let (fn, qn) = text_same name "table name" n e3 in
      let (fs, qs) = text_same source "source" s e4 in
      let (fx, qx) = text_same extension "file_extension" x e5 in
      (
        columns_of arrow o,
        orders,
        resolved,
        e2,
        rw (← ok_injective h5, ← qn, ← qs, ← qx, same)
            (body_lem name source extension pruning skip o table_schema orders fn fs fx (
              portable_sort_order-of_strings orders
                (portable_sort_order-All sort_order orders e2))),
      )
