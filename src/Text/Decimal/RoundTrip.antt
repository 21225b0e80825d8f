-- ===== src/Text/Decimal/RoundTrip.antt =====
-- int(str(n)) is n.

use parqdb.Prelude.{
  ℕ, zero, suc, ◌+◌, ◌*◌, ◌/◌, ◌%◌, ◌<◌, String, code, ◌≡◌, refl, ap, Bool, true, false, some,
  le→leb, ltb, arith, Bool-cases, inl, inr,
}
use parqdb.Python.Int.{pos}
use parqdb.Text.Chars.{code-to_char}
use parqdb.Text.Decimal.{
  strip_left, strip_right, strip, digit, digits, of_nat, is_digit, scan, signed, to_int,
}

code-digit : (d : ℕ) → d < 10 → code (digit d) ≡ 48 + d
unfolding digit
code-digit d h = code-to_char (48 + d) (omega arith)

scan-digit :
    (last : Bool) (n d : ℕ) (out : String)
    → d < 10
    → scan last n (String.◌∷◌ (digit d) out) ≡ scan true (n * 10 + d) out
unfolding scan
scan-digit last n d out h =
    rw (code-digit d h, le→leb 48 (48 + d) (omega arith), le→leb (48 + d) 57 (omega arith))
      (ap (λ m. scan true (n * 10 + m) out) (omega arith))

scan-digits :
    (fuel n : ℕ) (out : String) → n < fuel → scan false 0 (digits fuel n out) ≡ scan true n out
unfolding digits
scan-digits zero n out h = absurd (omega arith)
scan-digits (suc fuel) n out h = elim (Bool-cases (ltb n 10)) [
  | inl p ↦
      rw (p, scan-digit false 0 n out (ground arith)) (ap (λ m. scan true m out) (omega arith))
  | inr p ↦
      rw
        (
          p,
          scan-digits fuel (n / 10) _ (ground arith),
          scan-digit true (n / 10) (n % 10) out (omega arith),
        )
        (ap (λ m. scan true m out) (omega arith))
]

-- One or more digits, and nothing else.
abbrev AreDigits : String → Type 0
AreDigits String.[] = Unit
AreDigits (String.◌∷◌ c s) = (is_digit (code c) ≡ true) × AreDigits s

digit-is_digit : (d : ℕ) → d < 10 → is_digit (code (digit d)) ≡ true
unfolding is_digit
digit-is_digit d h = rw (code-digit d h) (ground arith)

digits-AreDigits :
    (fuel n : ℕ) (out : String) → n < fuel → AreDigits out → AreDigits (digits fuel n out)
unfolding digits
digits-AreDigits zero n out h k = absurd (omega arith)
digits-AreDigits (suc fuel) n out h k = elim (Bool-cases (ltb n 10)) [
  | inl p ↦ rw p (digit-is_digit n (ground arith), k)
  | inr p ↦
      rw p
        (digits-AreDigits fuel (n / 10) _ (ground arith) (digit-is_digit (n % 10) (omega arith), k))
]

strip_right-AreDigits : (s : String) → AreDigits s → strip_right s ≡ s
unfolding strip_right is_digit
strip_right-AreDigits String.[] h = refl
strip_right-AreDigits (String.◌∷◌ c s) (h, k) = rw (strip_right-AreDigits s k) (ground arith)

strip_left-AreDigits : (s : String) → AreDigits s → strip_left s ≡ s
unfolding strip_left is_digit
strip_left-AreDigits String.[] h = refl
strip_left-AreDigits (String.◌∷◌ c s) (h, k) = ground arith

strip-AreDigits : (s : String) → AreDigits s → strip s ≡ s
unfolding strip
strip-AreDigits s h = rw (strip_left-AreDigits s h) (strip_right-AreDigits s h)

signed-AreDigits :
    (s : String) (n : ℕ) → AreDigits s → scan false 0 s ≡ some n → signed s ≡ some (pos n)
unfolding signed
signed-AreDigits String.[] n h e = cc
signed-AreDigits (String.◌∷◌ c s) n (h, k) e = unfold is_digit in ground arith

pub to_int-of_nat : (n : ℕ) → to_int (of_nat n) ≡ some (pos n)
unfolding to_int of_nat
to_int-of_nat n =
    let plain = digits-AreDigits (suc n) n "" (omega arith) tt in
    rw (strip-AreDigits _ plain)
      (signed-AreDigits _ n plain (scan-digits (suc n) n "" (omega arith)))
