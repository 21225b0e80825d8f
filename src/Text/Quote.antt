-- ===== src/Text/Quote.antt =====
-- urllib.parse.quote and unquote.
pub mod RoundTrip
use parqdb.Prelude.{
  ℕ, ◌+◌, ◌-◌, ◌*◌, ◌/◌, ◌%◌, String, Char, code, ◌≡◌, refl, Bool, ◌&&◌, ◌||◌, List, [], ◌∷◌, ◌++◌,
  Option, none, some, eqb, leb, ltb, if◌then◌else◌,
}
use Prim.Native.String
use parqdb.Text.Chars.{to_char, contains}
use parqdb.Text.Utf8.{encode_char, decode}

abbrev between : ℕ → ℕ → ℕ → Bool
between lo c hi = leb lo c && leb c hi

-- Letters, digits and `_.-~` are never quoted.
always_safe : ℕ → Bool
always_safe c =
    between b'a' c b'z'
    || between b'A' c b'Z'
    || between b'0' c b'9'
    || eqb c b'_'
    || eqb c b'.'
    || eqb c b'-'
    || eqb c b'~'

is_safe : String → Char → Bool
unfolding always_safe contains
is_safe safe c = always_safe (code c) || (ltb (code c) 128 && contains c safe)

hex_digit : ℕ → Char
hex_digit n = to_char (if ltb n 10 then 48 + n else 55 + n)

-- `%XX` for each byte, in front of `rest`.
escape_bytes : List ℕ → String → String
unfolding hex_digit
escape_bytes [] rest = rest
escape_bytes (b ∷ bs) rest =
    String.◌∷◌ "%"
      (String.◌∷◌ (hex_digit (b / 16)) (String.◌∷◌ (hex_digit (b % 16)) (escape_bytes bs rest)))

-- quote(s, safe=safe)
unfoldable pub quote : String → String → String
unfolding is_safe escape_bytes
quote safe String.[] = ""
quote safe (String.◌∷◌ c s) =
    let rest = quote safe s in
    if is_safe safe c then String.◌∷◌ c rest else escape_bytes (encode_char (code c)) rest

hex_value : ℕ → Option ℕ
hex_value c =
    if between b'0' c b'9'
    then some (c - 48)
    else if between b'A' c b'F'
    then some (c - 55)
    else if between b'a' c b'f'
    then some (c - 87)
    else none

both_digits : Option ℕ → Option ℕ → Option ℕ
both_digits (some h) (some l) = some (h * 16 + l)
both_digits _ _ = none

-- The byte that `c`, `h` and `l` spell, if they are an escape.
escaped : Char → Char → Char → Option ℕ
unfolding hex_value both_digits
escaped c h l =
    if eqb (code c) b'%' then both_digits (hex_value (code h)) (hex_value (code l)) else none

-- The escaped bytes before the next character that is none are decoded together.
pub unquote_from : List ℕ → String → String
unfolding escaped
unquote_from bytes String.[] = decode bytes
unquote_from bytes (String.◌∷◌ c String.[]) = String.◌++◌ (decode bytes) (String.◌∷◌ c String.[])
unquote_from bytes (String.◌∷◌ c (String.◌∷◌ h String.[])) =
    String.◌++◌ (decode bytes) (String.◌∷◌ c (String.◌∷◌ h String.[]))
unquote_from bytes (String.◌∷◌ c (String.◌∷◌ h (String.◌∷◌ l s))) = elim (escaped c h l) [
  | none ↦
      String.◌++◌ (decode bytes) (String.◌∷◌ c (unquote_from [] (String.◌∷◌ h (String.◌∷◌ l s))))
  | some b ↦ unquote_from (bytes ++ b ∷ []) s
]

unfoldable pub unquote : String → String
unfolding unquote_from decode
unquote s = unquote_from [] s

quote_sample : quote "" "a b/é$~" ≡ "a%20b%2F%C3%A9%24~"
unfolding quote encode_char to_char
quote_sample = refl

unquote_samples :
    (unquote "a%20b%2f%C3%A9%24~%" ≡ "a b/é$~%")
    × (unquote "%E2%82x%4" ≡ "�x%4")
    × (unquote "100%zz" ≡ "100%zz")
unfolding unquote to_char
unquote_samples = (refl, refl, refl)
