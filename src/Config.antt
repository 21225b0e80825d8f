-- ===== src/Config.antt =====
-- config.py: the options of an index and of its writer. A parameter is a dynamically typed value.
pub mod Compression
pub mod Laws
use parqdb.Prelude.{
  String, Bool, true, false, not, List, [], ◌∷◌, Option, some, none, if◌then◌else◌,
}
use parqdb.Python.Exceptions.{
  Result, ExceptionClass, ok, raise, require, value_error, type_error, ◌>>=◌, ◌>>◌,
}
use parqdb.Python.Int.{ℤ, is_positive}
use parqdb.Python.Value.{Value, null, int, str}
use parqdb.Text.Chars.{format, member}
use parqdb.Config.Compression.{is_supported}

pub record Ivf : Type 0 where
  pub nlist : ℤ
  pub encoding : String
  pub metric : String

abbrev pub encodings : List String
encodings = "source" ∷ "lvq4" ∷ "lvq8" ∷ []

abbrev pub metrics : List String
metrics = "l2_squared" ∷ "cosine" ∷ []

-- isinstance(value, int) and not isinstance(value, bool); a bool is a value of its own here.
abbrev pub as_int : Value → ExceptionClass → String → Result ℤ
as_int (int n) k message = ok n
as_int _ k message = raise k message

abbrev pub as_str : Value → ExceptionClass → String → Result String
as_str (str s) k message = ok s
as_str _ k message = raise k message

-- IVF(nlist, encoding, metric)
unfoldable pub ivf : Value → Value → Value → Result Ivf
ivf nlist encoding metric = do
  n ← as_int nlist type_error "nlist must be an integer"
  require (is_positive n) value_error "nlist must be positive"
  e ← as_str encoding type_error "encoding must be a string"
  require (member e encodings) value_error (format ("unsupported encoding: " ∷ e ∷ []))
  m ← as_str metric type_error "metric must be a string"
  require (member m metrics) value_error (format ("unsupported metric: " ∷ m ∷ []))
  ok (record { nlist = n; encoding = e; metric = m })

pub record WriteOptions : Type 0 where
  pub partitions : Option ℤ
  pub compression : String
  pub target_file_size : ℤ
  pub max_row_group_rows : Option ℤ
  pub write_batch_rows : ℤ

positive : Value → String → Result ℤ
positive value message = do
  n ← as_int value value_error message
  require (is_positive n) value_error message
  ok n

optional_positive : Value → String → Result (Option ℤ)
unfolding positive
optional_positive null message = ok none
optional_positive value message = do n ← positive value message; ok (some n)

-- WriteOptions(…)
unfoldable pub write_options : Value → Value → Value → Value → Value → Result WriteOptions
unfolding optional_positive
write_options partitions compression target_file_size max_row_group_rows write_batch_rows = do
  p ← optional_positive partitions "partitions must be a positive integer"
  c ← as_str compression type_error "compression must be a string"
  require (is_supported c) value_error (format ("unsupported Parquet compression: " ∷ c ∷ []))
  t ← positive target_file_size "target_file_size must be a positive integer"
  m ← optional_positive max_row_group_rows "max_row_group_rows must be a positive integer"
  w ← positive write_batch_rows "write_batch_rows must be a positive integer"
  ok (record {
    partitions = p;
    compression = c;
    target_file_size = t;
    max_row_group_rows = m;
    write_batch_rows = w;
  })
