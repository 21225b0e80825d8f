-- ===== src/Text/Chars.antt =====
-- Characters by their numbers, and tests on texts.
use Prim.Native.Nat.{compare, Ordering}
use Prim.Native.Char.{char, IsScalar}
use Prim.Native.String
use text.Mathlib.TextEquality.{Char-path}
use parqdb.Prelude.{
  ℕ, ◌<◌, String, Char, code, ◌≡◌, refl, Bool, true, false, ◌||◌, List, [], ◌∷◌, arith, eqb,
  eqb_iff, Bool-cases, inl, inr, Option, some, none, ◌==◌, if◌then◌else◌,
}
use mathlib.Core.Option
use text.Mathlib.TextLemmas.{nil-append, cons-append}

-- U+FFFD
abbrev pub replacement : Char
replacement = "�"

of_comparisons :
    (n : ℕ) (a b c : Ordering)
    → compare n 55296 ≡ a
    → compare 57343 n ≡ b
    → compare n 1114112 ≡ c
    → Char
of_comparisons n Ordering.lt b c p q r = char n (rw p tt)
of_comparisons n Ordering.gt Ordering.lt Ordering.lt p q r = char n (rw (p, q, r) tt)
of_comparisons n _ b c p q r = replacement

-- chr(n) for a Unicode scalar value, and U+FFFD for any other number.
unfoldable pub to_char : ℕ → Char
unfolding of_comparisons
to_char n = of_comparisons n (compare n 55296) (compare 57343 n) (compare n 1114112) refl refl refl

of_comparisons-code :
    (n : ℕ) (s : IsScalar n) (a b c : Ordering) (p : compare n 55296 ≡ a) (q : compare 57343 n ≡ b)
    (r : compare n 1114112 ≡ c)
    → of_comparisons n a b c p q r ≡ char n s
unfolding of_comparisons
of_comparisons-code n s Ordering.lt b c p q r = Char-path _ _ refl
of_comparisons-code n s Ordering.gt Ordering.lt Ordering.lt p q r = Char-path _ _ refl
of_comparisons-code n s Ordering.eq Ordering.lt c p q r = absurd (ground arith)
of_comparisons-code n s Ordering.eq Ordering.eq c p q r = absurd (rw (p, q) at s)
of_comparisons-code n s Ordering.eq Ordering.gt c p q r = absurd (rw (p, q) at s)
of_comparisons-code n s Ordering.gt Ordering.lt Ordering.eq p q r = absurd (rw (p, q, r) at s)
of_comparisons-code n s Ordering.gt Ordering.lt Ordering.gt p q r = absurd (rw (p, q, r) at s)
of_comparisons-code n s Ordering.gt Ordering.eq c p q r = absurd (rw (p, q) at s)
of_comparisons-code n s Ordering.gt Ordering.gt c p q r = absurd (rw (p, q) at s)

pub to_char-code : (c : Char) → to_char (code c) ≡ c
unfolding to_char
to_char-code (char n s) = of_comparisons-code n s _ _ _ refl refl refl

of_comparisons_ascii :
    (n : ℕ) (a b c : Ordering) (p : compare n 55296 ≡ a) (q : compare 57343 n ≡ b)
    (r : compare n 1114112 ≡ c)
    → n < 55296
    → code (of_comparisons n a b c p q r) ≡ n
unfolding of_comparisons
of_comparisons_ascii n Ordering.lt b c p q r h = refl
of_comparisons_ascii n Ordering.eq b c p q r h = absurd (ground arith)
of_comparisons_ascii n Ordering.gt b c p q r h = absurd (ground arith)

pub code-to_char : (n : ℕ) → n < 55296 → code (to_char n) ≡ n
unfolding to_char
code-to_char n h = of_comparisons_ascii n _ _ _ refl refl refl h

-- `c in s`, for one character.
unfoldable pub contains : Char → String → Bool
contains d String.[] = false
contains d (String.◌∷◌ c s) = eqb (code c) (code d) || contains d s

-- An f-string, or `+`.
unfoldable pub format : List String → String
format [] = ""
format (s ∷ ss) = String.◌++◌ s (format ss)

abbrev pub is_empty : String → Bool
is_empty String.[] = true
is_empty (String.◌∷◌ _ _) = false

-- `s in {…}`
abbrev pub member : String → List String → Bool
member s [] = false
member s (t ∷ ts) = t == s || member s ts

-- s.startswith(prefix), with what follows the prefix.
unfoldable pub strip_prefix : String → String → Option String
strip_prefix String.[] s = some s
strip_prefix (String.◌∷◌ p ps) String.[] = none
strip_prefix (String.◌∷◌ p ps) (String.◌∷◌ c s) =
    let rest = strip_prefix ps s in if eqb (code p) (code c) then rest else none

pub strip_prefix-append : (p s : String) → strip_prefix p (String.◌++◌ p s) ≡ some s
unfolding strip_prefix
strip_prefix-append String.[] s = rw nil-append refl
strip_prefix-append (String.◌∷◌ c p) s =
    rw (cons-append, (eqb_iff (code c) (code c)).1 refl) (strip_prefix-append p s)

none-ne : {r : String} → none ≡ some r → ⊥
none-ne h = cc

pub strip_prefix-eq_some : (p s r : String) → strip_prefix p s ≡ some r → s ≡ String.◌++◌ p r
unfolding strip_prefix
strip_prefix-eq_some String.[] s r h = rw nil-append (ground arith)
strip_prefix-eq_some (String.◌∷◌ p ps) String.[] r h = cc
strip_prefix-eq_some (String.◌∷◌ p ps) (String.◌∷◌ c s) r h =
    elim (Bool-cases (eqb (code p) (code c))) [
      | inl e ↦
          rw
            (
              cons-append,
              strip_prefix-eq_some ps s r (rw e at h),
              Char-path p c ((eqb_iff (code p) (code c)).0 e),
            )
            refl
      | inr e ↦ absurd (none-ne (rw e at h))
    ]

-- `s[:-1]` if the text ends with `d`.
unfoldable pub strip_last : Char → String → Option String
strip_last d String.[] = none
strip_last d (String.◌∷◌ c String.[]) = if eqb (code c) (code d) then some "" else none
strip_last d (String.◌∷◌ c s) = Option.map (λ t. String.◌∷◌ c t) (strip_last d s)
