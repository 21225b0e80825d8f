-- ===== src/Publish/Building.antt =====
-- publish.py: the checks that build_index makes before it builds, and those of the index manifest
-- that is published. A path that is no file is `none`.
use parqdb.Prelude.{
  ℕ, String, Bool, true, false, not, ◌&&◌, ◌||◌, ◌==◌, List, [], ◌∷◌, Option, some, none, ◌≡◌, refl,
  ◌↔◌, inl, inr, Option-cases, subst, ap, ◌∙◌,
}
use parqdb.Python.Exceptions.{
  Result, ok, err, raise, Exception, require, convert, is_instance, json_decode_error, value_error,
  require-eq_ok, ok_injective, >>=-eq-ok, ◌>>=◌, ◌>>◌,
}
use parqdb.Python.Int.{ℤ, is_positive, at_most}
use parqdb.Python.Value.{Value, Fields, str, obj, get}
use parqdb.Text.Chars.{format}
use parqdb.Text.Decimal.{of_nat}
use parqdb.Publish.Source.{equals_nat}

-- The arguments of build_index that it checks; `source_rows` is what PyArrow reads of the source.
pub record Build : Type 0 where
  pub source : String
  pub source_rows : Option (Result ℕ)
  pub nlist : ℤ
  pub encoding : String
  pub metric : String
  pub threads : ℤ
  pub vector_column : Option String
  pub text_columns : List String
  pub embedding_batch_size : ℤ

abbrev pub is_given : Option String → Bool
is_given none = false
is_given (some column) = true

abbrev pub has_any : List String → Bool
has_any [] = false
has_any (column ∷ columns) = true

-- a != b
abbrev pub differ : Bool → Bool → Bool
differ true b = not b
differ false b = b

check_arguments : Build → Result (Unit {0})
check_arguments b = do
  require (differ (is_given b.vector_column) (has_any b.text_columns)) value_error
      "choose exactly one of --vector-column or --text-column"
  require (is_positive b.threads && at_most b.threads 16) value_error "threads must be in [1, 16]"
  require (is_positive b.nlist) value_error "nlist must be positive"
  require (b.encoding == "lvq4" || b.encoding == "lvq8") value_error "encoding must be lvq4 or lvq8"
  require (b.metric == "cosine" || b.metric == "l2_squared") value_error
      "metric must be cosine or l2_squared"
  require (is_positive b.embedding_batch_size) value_error "embedding batch size must be positive"

check_rows : Build → Result ℕ
check_rows b = elim b.source_rows [
  | none ↦ raise value_error (format ("source Parquet file does not exist: " ∷ b.source ∷ []))
  | some read ↦ do
    rows ← read
    require (at_most b.nlist rows) value_error
        (format ("nlist cannot exceed the " ∷ of_nat rows ∷ " source rows" ∷ []))
    ok rows
]

-- build_index, up to the work directory; the count of rows is returned.
unfoldable pub check_build : Build → Result ℕ
unfolding check_arguments check_rows
check_build b = check_arguments b >> check_rows b

is_text_value : Value → Bool
is_text_value (str s) = true
is_text_value _ = false

check_manifest : Value → Result Fields
unfolding is_text_value equals_nat
check_manifest (obj manifest) =
    require (equals_nat (get manifest "format-version") 1) value_error
      "index manifest must be an artifact format version 1"
    >> require (is_text_value (get manifest "artifact-uuid")) value_error
        "index manifest is missing artifact-uuid"
    >> ok manifest
check_manifest _ = raise value_error "index manifest must be an artifact format version 1"

-- _load_index_manifest, with what reading the file and parsing it gives.
unfoldable pub load_index_manifest : String → Option (Result Value) → Result Fields
unfolding check_manifest
load_index_manifest path none =
    raise value_error (format ("index manifest does not exist: " ∷ path ∷ []))
load_index_manifest path (some read) = do
  value ←
      convert (λ k. is_instance k json_decode_error)
        (λ e. record {
          kind = value_error;
          message = format ("invalid index manifest JSON: " ∷ e.message ∷ []);
        })
        read
  check_manifest value

-- What a build that may begin has.
pub record IsBuildable (b : Build) (rows : ℕ) : Type 0 where
  pub one_source : differ (is_given b.vector_column) (has_any b.text_columns) ≡ true
  pub threads : is_positive b.threads && at_most b.threads 16 ≡ true
  pub nlist : is_positive b.nlist ≡ true
  pub lists : at_most b.nlist rows ≡ true
  pub encoding : b.encoding == "lvq4" || b.encoding == "lvq8" ≡ true
  pub metric : b.metric == "cosine" || b.metric == "l2_squared" ≡ true
  pub batch : is_positive b.embedding_batch_size ≡ true
  pub source : b.source_rows ≡ some (ok rows)

check_arguments-ok :
    (b : Build) {done : Unit {0}}
    → check_arguments b ≡ ok done
    → (differ (is_given b.vector_column) (has_any b.text_columns) ≡ true)
      × (is_positive b.threads && at_most b.threads 16 ≡ true)
      × (is_positive b.nlist ≡ true)
      × (b.encoding == "lvq4" || b.encoding == "lvq8" ≡ true)
      × (b.metric == "cosine" || b.metric == "l2_squared" ≡ true)
      × (is_positive b.embedding_batch_size ≡ true)
unfolding check_arguments
check_arguments-ok b h =
    let (_, one, h1) =
      >>=-eq-ok (require (differ (is_given b.vector_column) (has_any b.text_columns)) _ _) _ h in
    let (_, threads, h2) =
      >>=-eq-ok (require (is_positive b.threads && at_most b.threads 16) _ _) _ h1 in
    let (_, nlist, h3) = >>=-eq-ok (require (is_positive b.nlist) _ _) _ h2 in
    let (_, encoding, h4) =
      >>=-eq-ok (require (b.encoding == "lvq4" || b.encoding == "lvq8") _ _) _ h3 in
    let (_, metric, h5) =
      >>=-eq-ok (require (b.metric == "cosine" || b.metric == "l2_squared") _ _) _ h4 in
    (
      require-eq_ok _ _ _ one,
      require-eq_ok _ _ _ threads,
      require-eq_ok _ _ _ nlist,
      require-eq_ok _ _ _ encoding,
      require-eq_ok _ _ _ metric,
      require-eq_ok _ _ _ h5,
    )

check_rows-ok :
    (b : Build) (rows : ℕ)
    → check_rows b ≡ ok rows
    → (b.source_rows ≡ some (ok rows)) × (at_most b.nlist rows ≡ true)
unfolding check_rows
check_rows-ok b rows h = elim (Option-cases b.source_rows) [
  | inl absent ↦ absurd (failed (simp (check_rows, absent) at h))
  | inr (read, there) ↦
      let (count, known, h1) = >>=-eq-ok read _ (simp (check_rows, there) at h) in
      let (_, most, same) = >>=-eq-ok (require (at_most b.nlist count) _ _) _ h1 in
      let e = ok_injective same in
      (
        there ∙ ap some (known ∙ ap ok e),
        subst (λ r. at_most b.nlist r ≡ true) e (require-eq_ok _ _ _ most),
      )
]
  where
    failed : {e : Exception} {n : ℕ} → err e ≡ ok n → ⊥
    failed e = cc

-- A build may begin exactly if it has one kind of columns, 1 to 16 threads, a positive number of
-- lists and of rows in a batch, a known encoding and metric, and a source that is read and has at
-- least as many rows as lists.
pub check_build-ok_iff : (b : Build) (rows : ℕ) → (check_build b ≡ ok rows) ↔ IsBuildable b rows
unfolding check_build check_arguments check_rows
check_build-ok_iff b rows = (
  λ h.
      let (_, accepted, counted) = >>=-eq-ok (check_arguments b) _ h in
      let (one, threads, nlist, encoding, metric, batch) = check_arguments-ok b accepted in
      let (read, most) = check_rows-ok b rows counted in
      record {
        one_source = one;
        threads = threads;
        nlist = nlist;
        lists = most;
        encoding = encoding;
        metric = metric;
        batch = batch;
        source = read;
      },
  λ i.
      simp
        (
          check_build, check_arguments, check_rows, i.one_source, i.threads, i.nlist, i.encoding,
          i.metric, i.batch, i.source, i.lists,
        )
        refl,
)
