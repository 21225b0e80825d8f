-- ===== src/Config/Laws.antt =====
-- What the constructors of config.py accept, and what an accepted value satisfies.
use parqdb.Prelude.{String, true, Option, some, none, ◌≡◌, refl}
use parqdb.Python.Exceptions.{ok, require, require-eq_ok, >>=-eq-ok, ok_injective}
use parqdb.Python.Int.{ℤ, is_positive}
use parqdb.Python.Value.{Value, null, int, str, of_option}
use parqdb.Text.Chars.{member}
use parqdb.Config.{
  Ivf, ivf, WriteOptions, write_options, encodings, metrics, as_int, as_str, positive,
  optional_positive,
}
use parqdb.Prelude.{IfSome}
use parqdb.Config.Compression.{is_supported}

-- What IVF's checks establish.
pub record IsIvf (c : Ivf) : Type 0 where
  pub nlist : is_positive c.nlist ≡ true
  pub encoding : member c.encoding encodings ≡ true
  pub metric : member c.metric metrics ≡ true

-- What WriteOptions' checks establish.
pub record IsWriteOptions (w : WriteOptions) : Type 0 where
  pub partitions : IfSome (λ n. is_positive n ≡ true) w.partitions
  pub compression : is_supported w.compression ≡ true
  pub target_file_size : is_positive w.target_file_size ≡ true
  pub max_row_group_rows : IfSome (λ n. is_positive n ≡ true) w.max_row_group_rows
  pub write_batch_rows : is_positive w.write_batch_rows ≡ true

-- An IVF configuration that is constructed has a positive nlist and one of the documented
-- encodings and metrics.
pub ivf-IsIvf : (n : Value) (e : Value) (m : Value) (c : Ivf) → ivf n e m ≡ ok c → IsIvf c
unfolding ivf
ivf-IsIvf n e m c h =
    let (n', _, h₁) = >>=-eq-ok (as_int n _ _) _ h in
    let (_, p₁, h₂) = >>=-eq-ok (require (is_positive n') _ _) _ h₁ in
    let (e', _, h₃) = >>=-eq-ok (as_str e _ _) _ h₂ in
    let (_, p₂, h₄) = >>=-eq-ok (require (member e' encodings) _ _) _ h₃ in
    let (m', _, h₅) = >>=-eq-ok (as_str m _ _) _ h₄ in
    let (_, p₃, last) = >>=-eq-ok (require (member m' metrics) _ _) _ h₅ in
    rw (← ok_injective last) (record {
      nlist = require-eq_ok _ _ _ p₁;
      encoding = require-eq_ok _ _ _ p₂;
      metric = require-eq_ok _ _ _ p₃;
    })

optional_positive-of_option :
    (o : Option ℤ) (message : String)
    → IfSome (λ n. is_positive n ≡ true) o
    → optional_positive (of_option int o) message ≡ ok o
unfolding optional_positive
optional_positive-of_option none message h = refl
optional_positive-of_option (some n) message h = rw h refl

positive-int : (n : ℤ) (message : String) → is_positive n ≡ true → positive (int n) message ≡ ok n
unfolding positive
positive-int n message h = rw h refl

pub write_options_of_IsWriteOptions :
    (w : WriteOptions)
    → IsWriteOptions w
    → write_options
        (of_option int w.partitions)
        (str w.compression)
        (int w.target_file_size)
        (of_option int w.max_row_group_rows)
        (int w.write_batch_rows)
      ≡ ok w
write_options_of_IsWriteOptions w v =
    unfold write_options in
    rw
      (
        optional_positive-of_option w.partitions _ v.partitions,
        v.compression,
        positive-int w.target_file_size _ v.target_file_size,
        optional_positive-of_option w.max_row_group_rows _ v.max_row_group_rows,
        positive-int w.write_batch_rows _ v.write_batch_rows,
      )
      refl

positive-eq_ok : (v : Value) (m : String) (n : ℤ) → positive v m ≡ ok n → is_positive n ≡ true
unfolding positive
positive-eq_ok v m n h =
    let (k, _, h₁) = >>=-eq-ok (as_int v _ m) _ h in
    let (_, p, last) = >>=-eq-ok (require (is_positive k) _ m) _ h₁ in
    rw (← ok_injective last) (require-eq_ok _ _ _ p)

optional_positive-eq_ok :
    (v : Value) (m : String) (o : Option ℤ)
    → optional_positive v m ≡ ok o
    → IfSome (λ n. is_positive n ≡ true) o
unfolding optional_positive
optional_positive-eq_ok null m o h = rw (← ok_injective h) tt
optional_positive-eq_ok (int k) m o h =
    let (n, p, last) = >>=-eq-ok (positive (int k) m) (λ (n : ℤ). ok (some n)) h in
    rw (← ok_injective last) (positive-eq_ok (int k) m n p)
optional_positive-eq_ok _ m o h = cc

-- Writer options that are constructed have positive sizes and counts where they are given and a
-- supported compression.
pub write_options-IsWriteOptions :
    (p c t m b : Value) (w : WriteOptions) → write_options p c t m b ≡ ok w → IsWriteOptions w
unfolding write_options
write_options-IsWriteOptions p c t m b w h =
    let (p', e₁, h₁) = >>=-eq-ok (optional_positive p _) _ h in
    let (c', _, h₂) = >>=-eq-ok (as_str c _ _) _ h₁ in
    let (_, e₂, h₃) = >>=-eq-ok (require (is_supported c') _ _) _ h₂ in
    let (t', e₃, h₄) = >>=-eq-ok (positive t _) _ h₃ in
    let (m', e₄, h₅) = >>=-eq-ok (optional_positive m _) _ h₄ in
    let (b', e₅, last) = >>=-eq-ok (positive b _) _ h₅ in
    rw (← ok_injective last) (record {
      partitions = optional_positive-eq_ok p _ p' e₁;
      compression = require-eq_ok _ _ _ e₂;
      target_file_size = positive-eq_ok t _ t' e₃;
      max_row_group_rows = optional_positive-eq_ok m _ m' e₄;
      write_batch_rows = positive-eq_ok b _ b' e₅;
    })
