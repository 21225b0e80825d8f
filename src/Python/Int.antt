-- ===== src/Python/Int.antt =====
-- Python's integers.
use parqdb.Prelude.{ℕ, Bool, true, false, leb, eqb}

-- `negsuc n` is -(n + 1).
pub data ℤ : Type 0 where
  pos : ℕ → ℤ
  negsuc : ℕ → ℤ

-- n > 0, and n >= 0
abbrev pub is_positive : ℤ → Bool
is_positive (pos n) = leb 1 n
is_positive (negsuc n) = false

abbrev pub is_non_negative : ℤ → Bool
is_non_negative (pos n) = true
is_non_negative (negsuc n) = false

-- n <= m, for a literal m of at least 0
abbrev pub at_most : ℤ → ℕ → Bool
at_most (pos n) m = leb n m
at_most (negsuc n) m = true

-- n == m
abbrev pub equal : ℤ → ℤ → Bool
equal (pos n) (pos m) = eqb n m
equal (negsuc n) (negsuc m) = eqb n m
equal _ _ = false
