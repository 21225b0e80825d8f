-- ===== src/Publish/Source/Dense.antt =====
-- The source keys that are accepted: the numbers from zero, over all the batches.
use parqdb.Prelude.{
  ℕ, zero, suc, ◌+◌, String, true, List, [], ◌∷◌, ◌++◌, length, ◌≡◌, refl, sym, ap, ◌∙◌, ◌↔◌, arith,
  Bool-cases, inl, inr, eqb_iff,
}
use parqdb.Python.Exceptions.{Result, Exception, ok, err, ◌>>=◌, ok_injective}
use parqdb.Python.Int.{ℤ, pos, negsuc, equal}
use parqdb.Publish.Source.{ParquetFile, validate_batch, validate_batches, validate_source_key}

-- The numbers from `first`, `count` of them.
abbrev pub numbers : ℕ → ℕ → List ℤ
numbers first zero = []
numbers first (suc count) = pos first ∷ numbers (first + 1) count

abbrev pub concat {ℓ} : {A : Type ℓ} → List (List A) → List A
concat [] = []
concat (xs ∷ xss) = xs ++ concat xss

equal_iff : (value : ℤ) (n : ℕ) → (equal value (pos n) ≡ true) ↔ (value ≡ pos n)
equal_iff (pos m) n = (λ h. ap pos ((eqb_iff m n).0 h), λ e. (eqb_iff m n).1 cc)
equal_iff (negsuc m) n = (λ h. cc, λ e. cc)

refused : {n : ℕ} {e : Exception} → ◌≡◌ {A = Result ℕ} (err e) (ok n) → ⊥
refused h = cc

-- The loop over a batch and then over the next one is the loop over both.
validate_batch-append :
    (first : ℕ) (xs ys : List ℤ)
    → validate_batch first (xs ++ ys) ≡ (validate_batch first xs >>= λ next. validate_batch next ys)
unfolding validate_batch
validate_batch-append first [] ys = refl
validate_batch-append first (x ∷ xs) ys = elim (Bool-cases (equal x (pos first))) [
  | inl e ↦ rw (validate_batch, e) (validate_batch-append (first + 1) xs ys)
  | inr e ↦ rw (validate_batch, e) refl
]

>>=-same :
    {A B : Type 0} (first : Result A) (f g : A → Result B)
    → ((a : A) → f a ≡ g a)
    → (first >>= f) ≡ (first >>= g)
>>=-same (ok a) f g h = h a
>>=-same (err e) f g h = refl

pub validate_batches-concat :
    (first : ℕ) (batches : List (List ℤ))
    → validate_batches first batches ≡ validate_batch first (concat batches)
unfolding validate_batches validate_batch
validate_batches-concat first [] = refl
validate_batches-concat first (batch ∷ batches) =
    >>=-same (validate_batch first batch) _ _ (λ next. validate_batches-concat next batches)
    ∙ sym (validate_batch-append first batch (concat batches))

-- It is accepted only if it holds the numbers, and the next one is returned.
validate_batch-ok :
    (first : ℕ) (values : List ℤ) (next : ℕ)
    → validate_batch first values ≡ ok next
    → (next ≡ first + length values) × (values ≡ numbers first (length values))
unfolding validate_batch
validate_batch-ok first [] next h = (omega (arith, ok_injective h), refl)
validate_batch-ok first (value ∷ values) next h = elim (Bool-cases (equal value (pos first))) [
  | inl e ↦
      let (last, same) = validate_batch-ok (first + 1) values next (rw (validate_batch, e) at h) in
      (omega (arith, last), rw (← (equal_iff value first).0 e) (ap (λ vs. value ∷ vs) same))
  | inr e ↦ absurd (refused (rw (validate_batch, e) at h))
]

validate_batch-numbers :
    (first count : ℕ) → validate_batch first (numbers first count) ≡ ok (first + count)
unfolding validate_batch
validate_batch-numbers first zero = ap ok (omega arith)
validate_batch-numbers first (suc count) =
    rw ((eqb_iff first first).1 refl)
      (validate_batch-numbers (first + 1) count ∙ ap ok (omega arith))

-- The source key is accepted, with a count of rows, exactly if its values over all the batches
-- are the numbers from zero, as many as the count says.
pub validate_source_key-ok_iff :
    (parquet : ParquetFile) (source_key : String) (count : ℕ)
    → (validate_source_key parquet source_key ≡ ok count)
      ↔ (concat (parquet.batches source_key) ≡ numbers 0 count)
unfolding validate_source_key
validate_source_key-ok_iff parquet source_key count = (
  λ h.
      let values = concat (parquet.batches source_key) in
      let (last, same) =
        validate_batch-ok 0 values count
          (sym (validate_batches-concat 0 (parquet.batches source_key)) ∙ h) in
      same ∙ ap (numbers 0) (omega (arith, last)),
  λ e.
      validate_batches-concat 0 (parquet.batches source_key)
      ∙ ap (validate_batch 0) e
      ∙ validate_batch-numbers 0 count
      ∙ ap ok (omega arith),
)
