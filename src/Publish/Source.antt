-- ===== src/Publish/Source.antt =====
-- publish.py: the check of a publication's source, _source_descriptor with _validate_source_key.
-- What PyArrow reads from the Parquet file is a parameter.
pub mod Dense
pub mod Described
use parqdb.Prelude.{
  ℕ, ◌+◌, ◌*◌, ◌-◌, ◌^◌, String, Bool, true, false, not, ◌&&◌, ◌||◌, ◌==◌, List, [], ◌∷◌, Option,
  none, some, eqb, leb, length, if◌then◌else◌,
}
use parqdb.Python.Exceptions.{
  Result, ExceptionClass, ok, err, raise, require, value_error, type_error, ◌>>=◌, ◌>>◌,
}
use parqdb.Python.Int.{ℤ, pos, negsuc, equal}
use parqdb.Python.Float.{Float}
use parqdb.Python.Value.{
  Value, Fields, Items, nil, cons, null, bool, int, float, str, arr, obj, end, field, get, of_items,
  of_entries, of_strings, entries,
}
use parqdb.Text.Chars.{format}
use parqdb.Text.Decimal.{of_nat}

-- A column of the file's schema.
pub record ColumnField : Type 0 where
  pub is_int64 : Bool
  pub nullable : Bool

-- A Parquet file: the columns by name, the counts of rows in the file, in its first row group and in
-- the others, and the values of a column in the batches that iter_batches gives.
pub record ParquetFile : Type 0 where
  pub names : List String
  pub column : String → Option ColumnField
  pub rows : ℕ
  pub first_group : ℕ
  pub other_groups : List ℕ
  pub batches : String → List (List ℤ)

pub record SourceFile : Type 0 where
  pub name : String
  pub size : ℕ
  pub sha256 : String
  pub parquet : Result ParquetFile

-- f"{n}"
abbrev text_of_int : ℤ → String
text_of_int (pos n) = of_nat n
text_of_int (negsuc n) = format ("-" ∷ of_nat (n + 1) ∷ [])

-- The loop over a batch, and over the batches, each with the value that is expected next.
unfoldable pub validate_batch : ℕ → List ℤ → Result ℕ
validate_batch expected [] = ok expected
validate_batch expected (value ∷ values) =
    let rest = validate_batch (expected + 1) values in
    if equal value (pos expected)
    then rest
    else raise value_error (
        format (
          "source key must be dense and ordered from zero; expected "
          ∷ of_nat expected
          ∷ ", got "
          ∷ text_of_int value
          ∷ []))

unfoldable pub validate_batches : ℕ → List (List ℤ) → Result ℕ
unfolding validate_batch
validate_batches expected [] = ok expected
validate_batches expected (batch ∷ batches) = do
  next ← validate_batch expected batch
  validate_batches next batches

-- _validate_source_key
unfoldable pub validate_source_key : ParquetFile → String → Result ℕ
validate_source_key parquet source_key = validate_batches 0 (parquet.batches source_key)

-- value == n, for a JSON value
unfoldable pub equals_nat : Value → ℕ → Bool
equals_nat (int i) n = equal i (pos n)
equals_nat (bool b) n = eqb (if b then 1 else 0) n
equals_nat (float x) n =
    if leb 2047 x.exponent
    then false
    else if eqb x.exponent 0
    then eqb x.fraction 0 && eqb n 0
    else not x.negative
      && (if leb 1075 x.exponent
          then eqb ((x.fraction + 2 ^ 52) * 2 ^ (x.exponent - 1075)) n
          else eqb (x.fraction + 2 ^ 52) (n * 2 ^ (1075 - x.exponent)))
equals_nat _ n = false

abbrev pub is_text : String → Value → Bool
is_text text (str s) = s == text
is_text text _ = false

-- value == [{"name": source_key, "type": "long"}]
unfoldable pub is_key_fields : String → Value → Bool
is_key_fields source_key (arr (cons (obj key) nil)) =
    eqb (length (entries key)) 2
    && is_text source_key (get key "name")
    && is_text "long" (get key "type")
is_key_fields source_key _ = false

-- That all row groups but the last one have this many rows.
unfoldable pub are_uniform : ℕ → List ℕ → Bool
are_uniform rows [] = true
are_uniform rows (group ∷ []) = true
are_uniform rows (group ∷ next ∷ groups) = eqb group rows && are_uniform rows (next ∷ groups)

key_column : ParquetFile → String → Result (Unit {0})
key_column parquet source_key = elim (parquet.column source_key) [
  | none ↦ raise value_error (format ("source key column does not exist: " ∷ source_key ∷ []))
  | some column ↦
      require column.is_int64 value_error "source key must be a non-null int64 column"
      >> require (not column.nullable) value_error "source key must be non-nullable"
]

index_of : ParquetFile → Value → Result Fields
unfolding equals_nat
index_of parquet (obj descriptor) = do
  require (equals_nat (get descriptor "ntotal") parquet.rows) value_error
      "source rows do not match index ntotal"
  ok descriptor
index_of parquet _ = raise value_error "source rows do not match index ntotal"

check_parquet : ParquetFile → String → Fields → Result (Unit {0})
unfolding key_column validate_source_key index_of is_key_fields are_uniform
check_parquet parquet source_key index_manifest = do
  key_column parquet source_key
  require (leb 1 parquet.rows) value_error "source Parquet file must contain at least one row"
  validate_source_key parquet source_key
  descriptor ← index_of parquet (get index_manifest "index")
  require (is_key_fields source_key (get descriptor "source-key-fields")) value_error
      "source key does not match the index source-key-fields"
  require (are_uniform parquet.first_group (parquet.first_group ∷ parquet.other_groups)) value_error
      "all source row groups except the final group must be uniform"

-- The descriptor of a source that was checked.
unfoldable pub describe : SourceFile → ParquetFile → String → Value
describe source parquet source_key = obj (
    of_entries (
      ("rows", int (pos parquet.rows))
      ∷ ("row-group-rows", int (pos parquet.first_group))
      ∷ ("key", obj (of_entries (("name", str source_key) ∷ ("type", str "long") ∷ [])))
      ∷ ("columns", of_strings parquet.names)
      ∷ (
        "files",
        arr (
            cons
              (obj (
                of_entries (
                  ("path", str source.name)
                  ∷ ("size", int (pos source.size))
                  ∷ ("sha256", str source.sha256)
                  ∷ ("row-begin", int (pos 0))
                  ∷ ("row-end", int (pos parquet.rows))
                  ∷ [])))
              nil),
      )
      ∷ []))

-- _source_descriptor; `none` is a path that is no file, whose text the exception has.
unfoldable pub source_descriptor : Option SourceFile → String → String → Fields → Result Value
unfolding check_parquet describe
source_descriptor none path source_key index_manifest =
    raise value_error (format ("source Parquet file does not exist: " ∷ path ∷ []))
source_descriptor (some source) path source_key index_manifest = do
  parquet ← source.parquet
  check_parquet parquet source_key index_manifest
  ok (describe source parquet source_key)
