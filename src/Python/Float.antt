-- ===== src/Python/Float.antt =====
-- Python's floats: the fields of an IEEE 754 double, and `float(n)` of an integer.
use parqdb.Prelude.{
  ℕ, zero, suc, ◌+◌, ◌-◌, ◌*◌, ◌/◌, ◌%◌, ◌^◌, Bool, true, false, ◌&&◌, ◌||◌, ltb, leb, eqb,
  if◌then◌else◌, ◌≡◌, refl, some, none, Option,
}
use parqdb.Python.Exceptions.{Result, ok, raise, overflow_error, value_error}
use parqdb.Python.Int.{ℤ, pos, negsuc}

pub record Float : Type 0 where
  pub negative : Bool
  -- the biased exponent, below 2048
  pub exponent : ℕ
  -- the fraction's 52 bits
  pub fraction : ℕ

-- math.isfinite
unfoldable pub is_finite : Float → Bool
is_finite x = ltb x.exponent 2047

-- The number of the highest bit, for n > 0.
log2 : ℕ → ℕ → ℕ
log2 zero n = 0
log2 (suc fuel) n = elim (leb n 1) [ true ↦ 0 | false ↦ suc (log2 fuel (n / 2)) ]

-- n / 2^k rounded to the nearest integer, ties to the even one.
round_shift : ℕ → ℕ → ℕ
round_shift n k =
    let q = n / 2 ^ k in
    let r = n % 2 ^ k in
    if ltb (2 ^ k) (2 * r) || (eqb (2 * r) (2 ^ k) && eqb (q % 2) 1) then q + 1 else q

-- `q` has 53 bits, or is 2^53 after rounding up; `e` is its exponent.
pack : Bool → ℕ → ℕ → Option Float
pack sign q e =
    let carry = eqb q (2 ^ 53) in
    let e' = if carry then e + 1 else e in
    if ltb 1023 e'
    then none
    else some (record {
      negative = sign;
      exponent = 1023 + e';
      fraction = if carry then 0 else q - 2 ^ 52;
    })

of_magnitude : Bool → ℕ → Option Float
unfolding log2 round_shift pack
of_magnitude sign n =
    let e = log2 n n in
    if eqb n 0
    then some (record { negative = false; exponent = 0; fraction = 0 })
    else if leb e 52
    then pack sign (n * 2 ^ (52 - e)) e
    else pack sign (round_shift n (e - 52)) e

-- `float(n)`; `none` is the OverflowError "int too large to convert to float".
unfoldable pub of_int : ℤ → Option Float
unfolding of_magnitude
of_int (pos n) = of_magnitude false n
of_int (negsuc n) = of_magnitude true (suc n)

of_int_three :
    of_int (pos 3) ≡ some (record { negative = false; exponent = 1024; fraction = 2 ^ 51 })
unfolding of_int
of_int_three = refl

of_int_rounds :
    of_int (negsuc (2 ^ 53)) ≡ some (record { negative = true; exponent = 1076; fraction = 0 })
unfolding of_int
of_int_rounds = refl

of_int_overflows : of_int (pos (2 ^ 1024)) ≡ none
unfolding of_int
of_int_overflows = refl

-- int(x) of a float, which is cut towards zero.
magnitude : Float → ℕ
magnitude x =
    if leb 1075 x.exponent
    then (x.fraction + 2 ^ 52) * 2 ^ (x.exponent - 1075)
    else (x.fraction + 2 ^ 52) / 2 ^ (1075 - x.exponent)

with_sign : Bool → ℕ → ℤ
with_sign true (suc n) = negsuc n
with_sign true zero = pos 0
with_sign false n = pos n

unfoldable pub truncate : Float → Result ℤ
unfolding magnitude with_sign
truncate x =
    if leb 2047 x.exponent
    then (if eqb x.fraction 0
        then raise overflow_error "cannot convert float infinity to integer"
        else raise value_error "cannot convert float NaN to integer")
    else if eqb x.exponent 0
    then ok (pos 0)
    else ok (with_sign x.negative (magnitude x))

truncate_sample :
    truncate (record { negative = true; exponent = 1025; fraction = 2 ^ 51 + 2 ^ 50 })
    ≡ ok (negsuc 6)
unfolding truncate
truncate_sample = refl
