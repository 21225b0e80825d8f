-- ===== src/Publish/Source/Described.antt =====
-- What a source has that _source_descriptor describes: row groups that a row's number leads to, dense
-- keys, and the index's own count of rows and key.
use parqdb.Prelude.{
  ℕ, zero, suc, ◌+◌, ◌*◌, ◌≤◌, ◌<◌, String, Bool, true, false, not, ◌&&◌, leb, leb→le, eqb, eqb_iff,
  eq_iff, List, [], ◌∷◌, length, take, Option-cases, some, ◌≡◌, refl, sym, ap, ◌∙◌, subst, arith,
  inl, inr,
}
use parqdb.Python.Exceptions.{Exception, ok, err, ok_injective, require, require-eq_ok, >>=-eq-ok}
use parqdb.Python.Int.{ℤ, pos, negsuc}
use parqdb.Python.Value.{
  Value, Fields, null, bool, int, float, str, arr, obj, cons, nil, get, entries,
}
use parqdb.Publish.Source.{
  SourceFile, ColumnField, ParquetFile, are_uniform, equals_nat, is_key_fields, is_text, key_column,
  index_of, validate_source_key, check_parquet, describe, source_descriptor,
}
use parqdb.Publish.Source.Dense.{numbers, concat, validate_source_key-ok_iff}

abbrev pub total : List ℕ → ℕ
total [] = 0
total (n ∷ ns) = n + total ns

-- The rows before each group are as many as the groups before it say.
are_uniform-total :
    (rows : ℕ) (groups : List ℕ) (i : ℕ)
    → are_uniform rows groups ≡ true
    → i < length groups
    → total (take i groups) ≡ i * rows
unfolding are_uniform
are_uniform-total rows [] i u h = absurd (omega arith)
are_uniform-total rows (group ∷ []) zero u h = omega arith
are_uniform-total rows (group ∷ []) (suc i) u h = absurd (omega arith)
are_uniform-total rows (group ∷ next ∷ groups) zero u h = omega arith
are_uniform-total rows (group ∷ next ∷ groups) (suc i) u h =
    let e : eqb group rows ≡ true = ground arith in
    let r : are_uniform rows (next ∷ groups) ≡ true = ground arith in
    omega
      (arith, (eqb_iff group rows).0 e, are_uniform-total rows (next ∷ groups) i r (omega arith))

-- A list of one key, which has this name and the type long.
abbrev pub NamesKey : String → Value → Type 0
NamesKey source_key value =
    (key : Fields) × (value ≡ arr (cons (obj key) nil))
    × (length (entries key) ≡ 2)
    × (get key "name" ≡ str source_key)
    × (get key "type" ≡ str "long")

is_text-eq : (text : String) (value : Value) → is_text text value ≡ true → value ≡ str text
is_text-eq text (str s) h = ap str ((eq_iff s text).0 h)
is_text-eq text null h = cc
is_text-eq text (bool b) h = cc
is_text-eq text (int n) h = cc
is_text-eq text (float x) h = cc
is_text-eq text (obj fs) h = cc
is_text-eq text (arr xs) h = cc

is_key_fields-NamesKey :
    (source_key : String) (value : Value)
    → is_key_fields source_key value ≡ true
    → NamesKey source_key value
unfolding is_key_fields
is_key_fields-NamesKey source_key (arr (cons (obj key) nil)) h =
    let (two, name, type) = all_three h in
    (
      key,
      refl,
      (eqb_iff _ 2).0 two,
      is_text-eq source_key (get key "name") name,
      is_text-eq "long" (get key "type") type,
    )
  where
    all_three : {a b c : Bool} → a && b && c ≡ true → (a ≡ true) × (b ≡ true) × (c ≡ true)
    all_three e = (ground arith, ground arith, ground arith)
is_key_fields-NamesKey source_key (arr nil) h = cc
is_key_fields-NamesKey source_key (arr (cons (obj key) (cons next keys))) h = cc
is_key_fields-NamesKey source_key (arr (cons null keys)) h = cc
is_key_fields-NamesKey source_key (arr (cons (bool b) keys)) h = cc
is_key_fields-NamesKey source_key (arr (cons (int n) keys)) h = cc
is_key_fields-NamesKey source_key (arr (cons (float x) keys)) h = cc
is_key_fields-NamesKey source_key (arr (cons (str s) keys)) h = cc
is_key_fields-NamesKey source_key (arr (cons (arr xs) keys)) h = cc
is_key_fields-NamesKey source_key null h = cc
is_key_fields-NamesKey source_key (bool b) h = cc
is_key_fields-NamesKey source_key (int n) h = cc
is_key_fields-NamesKey source_key (float x) h = cc
is_key_fields-NamesKey source_key (str s) h = cc
is_key_fields-NamesKey source_key (obj fs) h = cc

-- What a described source has, with the descriptor's fields.
pub record IsAccepted (parquet : ParquetFile) (source_key : String) (index_manifest : Fields)
    (descriptor : Fields) : Type 0 where
  pub says_rows : get descriptor "rows" ≡ int (pos parquet.rows)
  pub has_rows : 1 ≤ parquet.rows
  pub group_rows : ℕ
  pub says_group_rows : get descriptor "row-group-rows" ≡ int (pos group_rows)
  pub begins :
      (i : ℕ)
      → i < length (parquet.first_group ∷ parquet.other_groups)
      → total (take i (parquet.first_group ∷ parquet.other_groups)) ≡ i * group_rows
  pub key_type :
      (column : ColumnField) × (parquet.column source_key ≡ some column)
      × (column.is_int64 ≡ true)
      × (column.nullable ≡ false)
  pub dense : (count : ℕ) × (concat (parquet.batches source_key) ≡ numbers 0 count)
  pub agrees :
      (index : Fields) × (get index_manifest "index" ≡ obj index)
      × ((n : ℤ) → get index "ntotal" ≡ int n → n ≡ pos parquet.rows)
      × NamesKey source_key (get index "source-key-fields")

key_column-ok :
    (parquet : ParquetFile) (source_key : String) {done : Unit {0}}
    → key_column parquet source_key ≡ ok done
    → (column : ColumnField) × (parquet.column source_key ≡ some column)
      × (column.is_int64 ≡ true)
      × (column.nullable ≡ false)
unfolding key_column
key_column-ok parquet source_key h = elim (Option-cases (parquet.column source_key)) [
  | inl absent ↦ absurd (failed (simp (key_column, absent) at h))
  | inr (column, there) ↦
      let (_, typed, rest) =
        >>=-eq-ok (require column.is_int64 _ _) _ (simp (key_column, there) at h) in
      (column, there, require-eq_ok _ _ _ typed, not_true (require-eq_ok _ _ _ rest))
]
  where
    failed : {e : Exception} {done : Unit {0}} → err e ≡ ok done → ⊥
    failed e = cc

    not_true : {b : Bool} → not b ≡ true → b ≡ false
    not_true e = ground arith

index_of-ok :
    (parquet : ParquetFile) (value : Value) {index : Fields}
    → index_of parquet value ≡ ok index
    → (value ≡ obj index) × (equals_nat (get index "ntotal") parquet.rows ≡ true)
unfolding index_of
index_of-ok parquet (obj descriptor) h =
    let (_, total, same) =
      >>=-eq-ok (require (equals_nat (get descriptor "ntotal") parquet.rows) _ _) _ h in
    let e = ok_injective same in
    (
      ap obj e,
      subst (λ d. equals_nat (get d "ntotal") parquet.rows ≡ true) e (require-eq_ok _ _ _ total),
    )
index_of-ok parquet null h = cc
index_of-ok parquet (bool b) h = cc
index_of-ok parquet (int n) h = cc
index_of-ok parquet (float x) h = cc
index_of-ok parquet (str s) h = cc
index_of-ok parquet (arr xs) h = cc

-- For a JSON integer, the test of the count is equality.
equals_nat-int :
    (value : Value) (n : ℕ) (m : ℤ) → equals_nat value n ≡ true → value ≡ int m → m ≡ pos n
unfolding equals_nat
equals_nat-int value n (pos m) h e =
    ap pos ((eqb_iff m n).0 (subst (λ v. equals_nat v n ≡ true) e h))
equals_nat-int value n (negsuc m) h e = absurd (differ (subst (λ v. equals_nat v n ≡ true) e h))
  where
    differ : false ≡ true → ⊥
    differ d = cc

check_parquet-IsAccepted :
    (source : SourceFile) (parquet : ParquetFile) (source_key : String) (index_manifest : Fields)
    {done : Unit {0}}
    → check_parquet parquet source_key index_manifest ≡ ok done
    → (descriptor : Fields) × (describe source parquet source_key ≡ obj descriptor)
      × IsAccepted parquet source_key index_manifest descriptor
unfolding check_parquet describe
check_parquet-IsAccepted source parquet source_key index_manifest h =
    let (_, typed, h1) = >>=-eq-ok (key_column parquet source_key) _ h in
    let (_, some_rows, h2) = >>=-eq-ok (require (leb 1 parquet.rows) _ _) _ h1 in
    let (count, dense, h3) = >>=-eq-ok (validate_source_key parquet source_key) _ h2 in
    let (index, counted, h4) = >>=-eq-ok (index_of parquet (get index_manifest "index")) _ h3 in
    let (_, named, h5) =
      >>=-eq-ok (require (is_key_fields source_key (get index "source-key-fields")) _ _) _ h4 in
    (
      _,
      refl,
      record {
        says_rows = refl;
        has_rows = leb→le 1 parquet.rows (require-eq_ok _ _ _ some_rows);
        group_rows = parquet.first_group;
        says_group_rows = refl;
        begins = λ i h.
            are_uniform-total parquet.first_group (parquet.first_group ∷ parquet.other_groups) i
              (require-eq_ok _ _ _ h5) h;
        key_type = key_column-ok parquet source_key typed;
        dense = (count, (validate_source_key-ok_iff parquet source_key count).0 dense);
        agrees =
            let (found, same) = index_of-ok parquet (get index_manifest "index") counted in
            (
              index,
              found,
              λ n e. equals_nat-int (get index "ntotal") parquet.rows n same e,
              is_key_fields-NamesKey source_key (get index "source-key-fields")
                  (require-eq_ok _ _ _ named),
            );
      },
    )

-- If a source is described, PyArrow reads it; the descriptor says its number of rows, which is
-- not zero, and a number of rows of a group such that, for each row group, the groups before it
-- have together as many rows as this number times the index of the group; the key column is a
-- non-null int64 whose values over all the batches are the numbers from zero; and in the index
-- of the manifest an integer ntotal is the number of rows, and the source key fields are one
-- entry of two fields, this name and the type long.
pub source_descriptor-IsAccepted :
    (source : SourceFile) (path source_key : String) (index_manifest : Fields) (value : Value)
    → source_descriptor (some source) path source_key index_manifest ≡ ok value
    → (parquet : ParquetFile) × (descriptor : Fields) × (source.parquet ≡ ok parquet)
      × (value ≡ obj descriptor)
      × IsAccepted parquet source_key index_manifest descriptor
unfolding source_descriptor
source_descriptor-IsAccepted source path source_key index_manifest value h =
    let (parquet, read, h1) = >>=-eq-ok source.parquet _ h in
    let (_, checked, made) = >>=-eq-ok (check_parquet parquet source_key index_manifest) _ h1 in
    let (descriptor, described, accepted) =
      check_parquet-IsAccepted source parquet source_key index_manifest checked in
    (parquet, descriptor, read, sym (ok_injective made) ∙ described, accepted)
