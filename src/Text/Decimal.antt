-- ===== src/Text/Decimal.antt =====
-- str.strip, str(n) for n >= 0 and int(text). Of the digits, int(text) reads the ASCII ones.
pub mod RoundTrip
use Prim.Native.String
use parqdb.Prelude.{
  ℕ, zero, suc, ◌+◌, ◌-◌, ◌*◌, ◌/◌, ◌%◌, String, Char, code, ◌≡◌, refl, Bool, true, false, ◌&&◌,
  ◌||◌, Option, none, some, eqb, leb, ltb, if◌then◌else◌,
}
use parqdb.Python.Int.{ℤ, pos, negsuc}
use parqdb.Text.Chars.{to_char, is_empty}

abbrev between : ℕ → ℕ → ℕ → Bool
between lo c hi = leb lo c && leb c hi

-- str.isspace, for one character.
unfoldable pub is_space : ℕ → Bool
is_space c =
    between 9 c 13
    || between 28 c 32
    || eqb c 133
    || eqb c 160
    || eqb c 5760
    || between 8192 c 8202
    || between 8232 c 8233
    || eqb c 8239
    || eqb c 8287
    || eqb c 12288

strip_left : String → String
unfolding is_space
strip_left String.[] = ""
strip_left (String.◌∷◌ c s) =
    let rest = strip_left s in if is_space (code c) then rest else String.◌∷◌ c s

strip_right : String → String
unfolding is_space
strip_right String.[] = ""
strip_right (String.◌∷◌ c s) =
    let rest = strip_right s in if is_empty rest && is_space (code c) then "" else String.◌∷◌ c rest

-- s.strip()
unfoldable pub strip : String → String
unfolding strip_left strip_right
strip s = strip_right (strip_left s)

digit : ℕ → Char
digit d = to_char (48 + d)

digits : ℕ → ℕ → String → String
unfolding digit
digits zero n out = out
digits (suc fuel) n out =
    let more = digits fuel (n / 10) (String.◌∷◌ (digit (n % 10)) out) in
    if ltb n 10 then String.◌∷◌ (digit n) out else more

-- str(n)
unfoldable pub of_nat : ℕ → String
unfolding digits
of_nat n = digits (suc n) n ""

is_digit : ℕ → Bool
is_digit c = between 48 c 57

-- Digits, with single underscores between them; `last` tells that the character before was a digit.
scan : Bool → ℕ → String → Option ℕ
unfolding is_digit
scan last n String.[] = if last then some n else none
scan last n (String.◌∷◌ c s) =
    let d = is_digit (code c) in
    let rest = scan d (if d then n * 10 + (code c - 48) else n) s in
    if d || (last && eqb (code c) b'_') then rest else none

negate : ℕ → ℤ
negate zero = pos zero
negate (suc n) = negsuc n

signed : String → Option ℤ
unfolding scan negate
signed String.[] = none
signed (String.◌∷◌ c s) =
    if eqb (code c) b'-'
    then elim (scan false 0 s) [ none ↦ none | some n ↦ some (negate n) ]
    else if eqb (code c) b'+'
    then elim (scan false 0 s) [ none ↦ none | some n ↦ some (pos n) ]
    else elim (scan false 0 (String.◌∷◌ c s)) [ none ↦ none | some n ↦ some (pos n) ]

-- int(s); `none` is the ValueError.
unfoldable pub to_int : String → Option ℤ
unfolding signed strip
to_int s = signed (strip s)

to_int_samples :
    (to_int " -1_000\n" ≡ some (negsuc 999))
    × (to_int "1__0" ≡ none)
    × (to_int "_1" ≡ none)
    × (to_int "+7" ≡ some (pos 7))
    × (to_int "" ≡ none)
unfolding to_int
to_int_samples = (refl, refl, refl, refl, refl)

of_nat_samples : (of_nat 0 ≡ "0") × (of_nat 4096 ≡ "4096")
unfolding of_nat to_char
of_nat_samples = (refl, refl)

all_digits : String → Bool
unfolding is_digit
all_digits String.[] = true
all_digits (String.◌∷◌ c s) = is_digit (code c) && all_digits s

-- s.isdigit()
unfoldable pub is_digits : String → Bool
unfolding all_digits
is_digits s = if is_empty s then false else all_digits s
