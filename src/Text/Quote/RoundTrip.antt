-- ===== src/Text/Quote/RoundTrip.antt =====
-- Unquoting a quoted text gives it back, and quoting adds only `%` and hexadecimal digits.
use Prim.Native.String
use text.Mathlib.TextLemmas.{
  nil-append, cons-append, append-nil as string_append-nil, append_assoc as string_append_assoc,
}
use parqdb.Prelude.{
  ℕ, ◌+◌, ◌/◌, ◌%◌, ◌<◌, String, Char, code, ◌≡◌, refl, sym, ap, ◌∙◌, Bool, true, false, List, [],
  ◌∷◌, ◌++◌, append_assoc, append-nil, none, some, arith, eqb, leb, ◌&&◌, ◌||◌, eqb_iff, All,
  Bool-cases, inl, inr,
}
use text.Mathlib.TextEquality.{Char-path}
use parqdb.Text.Chars.{code-to_char, contains, is_empty}
use parqdb.Text.Utf8.{encode_char, encode, decode}
use parqdb.Text.Utf8.RoundTrip.{decode-encode, scalar_range}
use parqdb.Text.Quote.{
  is_safe, hex_digit, escape_bytes, quote, hex_value, escaped, unquote_from, unquote,
}

hex_value-hex_digit : (n : ℕ) → n < 16 → hex_value (code (hex_digit n)) ≡ some n
unfolding hex_value hex_digit
hex_value-hex_digit n h = ground (arith, code-to_char (48 + n), code-to_char (55 + n))

escaped-hex_digit :
    (b : ℕ) → b < 256 → escaped "%" (hex_digit (b / 16)) (hex_digit (b % 16)) ≡ some b
escaped-hex_digit b h =
    unfold escaped in
    rw (hex_value-hex_digit (b / 16) (omega arith), hex_value-hex_digit (b % 16) (omega arith))
      (ap some (omega arith))

unquote_from-escape_bytes :
    (bytes bs : List ℕ) (r : String)
    → All (λ b. b < 256) bs
    → unquote_from bytes (escape_bytes bs r) ≡ unquote_from (bytes ++ bs) r
unfolding escape_bytes unquote_from
unquote_from-escape_bytes bytes [] r h = rw append-nil
unquote_from-escape_bytes bytes (b ∷ bs) r (h, hs) =
    rw (escaped-hex_digit b h, unquote_from)
      (unquote_from-escape_bytes (bytes ++ b ∷ []) bs r hs
        ∙ ap (λ l. unquote_from l r) (append_assoc bytes (b ∷ []) bs))

decode-nil : decode [] ≡ ""
unfolding decode
decode-nil = refl

-- Where `r` begins with no escape, the bytes before it are decoded by themselves.
abbrev pub IsClean : String → Type 0
IsClean r = (bytes : List ℕ) → unquote_from bytes r ≡ String.◌++◌ (decode bytes) (unquote_from [] r)

pub IsClean-nil : IsClean ""
unfolding unquote_from
IsClean-nil bytes = rw (decode-nil, string_append-nil) refl

escaped_plain : (c h l : Char) → eqb (code c) b'%' ≡ false → escaped c h l ≡ none
unfolding escaped
escaped_plain c h l e = rw e

unquote_from_plain :
    (bytes : List ℕ) (c : Char) (r : String)
    → eqb (code c) b'%' ≡ false
    → unquote_from bytes (String.◌∷◌ c r)
      ≡ String.◌++◌ (decode bytes) (String.◌∷◌ c (unquote_from [] r))
unfolding unquote_from
unquote_from_plain bytes c String.[] h = rw decode-nil refl
unquote_from_plain bytes c (String.◌∷◌ d String.[]) h = rw (decode-nil, nil-append) refl
unquote_from_plain bytes c (String.◌∷◌ d (String.◌∷◌ l s)) h =
    rw (escaped_plain c d l h, unquote_from) refl

pub unquote_from-nil_plain :
    (c : Char) (r : String)
    → eqb (code c) b'%' ≡ false
    → unquote_from [] (String.◌∷◌ c r) ≡ String.◌∷◌ c (unquote_from [] r)
unquote_from-nil_plain c r h = unquote_from_plain [] c r h ∙ rw (decode-nil, nil-append) refl

pub IsClean-cons : (c : Char) (r : String) → eqb (code c) b'%' ≡ false → IsClean (String.◌∷◌ c r)
IsClean-cons c r h bytes = rw (unquote_from_plain bytes c r h, unquote_from-nil_plain c r h) refl

encode_char-All : (n : ℕ) → n < 1114112 → All (λ b. b < 256) (encode_char n)
unfolding encode_char
encode_char-All n h = ground arith

encode-append :
    (t : String) (c : Char)
    → encode (String.◌++◌ t (String.◌∷◌ c "")) ≡ encode t ++ encode_char (code c)
unfolding encode
encode-append String.[] c = rw (nil-append) (append-nil _)
encode-append (String.◌∷◌ d t) c =
    rw (cons-append, append_assoc) (ap (λ l. encode_char (code d) ++ l) (encode-append t c))

is_safe-ne_percent :
    (safe : String) (c : Char)
    → contains "%" safe ≡ false
    → is_safe safe c ≡ true
    → eqb (code c) b'%' ≡ false
unfolding is_safe
is_safe-ne_percent safe c h k = elim (Bool-cases (eqb (code c) b'%')) [
  | inr e ↦ e
  | inl e ↦
      let percent : c ≡ "%" = Char-path c "%" ((eqb_iff (code c) b'%').0 e) in
      cc (h, ap (is_safe safe) percent, k)
]

escape_bytes-append :
    (bs : List ℕ) (s r : String)
    → String.◌++◌ (escape_bytes bs s) r ≡ escape_bytes bs (String.◌++◌ s r)
unfolding escape_bytes
escape_bytes-append [] s r = refl
escape_bytes-append (b ∷ bs) s r = simp cons-append (
    ap (λ t. String.◌∷◌ "%" (String.◌∷◌ (hex_digit (b / 16)) (String.◌∷◌ (hex_digit (b % 16)) t)))
      (escape_bytes-append bs s r))

unquote_from-quote :
    (safe t s r : String)
    → contains "%" safe ≡ false
    → IsClean r
    → unquote_from (encode t) (String.◌++◌ (quote safe s) r)
      ≡ String.◌++◌ t (String.◌++◌ s (unquote_from [] r))
unfolding quote encode
unquote_from-quote safe t String.[] r h clean =
    rw (nil-append, clean (encode t), decode-encode, nil-append) refl
unquote_from-quote safe t (String.◌∷◌ c s) r h clean = elim (Bool-cases (is_safe safe c)) [
  | inl p ↦
      let rest = unquote_from-quote safe "" s r h clean ∙ nil-append _ in
      rw
        (
          p,
          cons-append,
          unquote_from_plain (encode t) c _ (is_safe-ne_percent safe c h p),
          decode-encode,
          rest,
          cons-append,
        )
        refl
  | inr p ↦
      let rest = unquote_from-quote safe (String.◌++◌ t (String.◌∷◌ c "")) s r h clean in
      rw
        (
          p,
          escape_bytes-append,
          unquote_from-escape_bytes (encode t) _ _ (encode_char-All (code c) (scalar_range c).0),
          ← encode-append t c,
          rest,
        )
        (simp (string_append_assoc, cons-append, nil-append))
]

-- What follows the quoted text is unquoted by itself.
pub unquote-quote_append :
    (safe s r : String)
    → contains "%" safe ≡ false
    → IsClean r
    → unquote (String.◌++◌ (quote safe s) r) ≡ String.◌++◌ s (unquote r)
unfolding unquote encode
unquote-quote_append safe s r h clean = unquote_from-quote safe "" s r h clean ∙ nil-append _

pub unquote-quote : (safe s : String) → contains "%" safe ≡ false → unquote (quote safe s) ≡ s
unfolding unquote unquote_from
unquote-quote safe s h =
    ap unquote (sym (string_append-nil (quote safe s)))
    ∙ unquote-quote_append safe s "" h IsClean-nil
    ∙ rw (decode-nil) (string_append-nil s)

pub unquote-cons :
    (c : Char) (r : String)
    → eqb (code c) b'%' ≡ false
    → unquote (String.◌∷◌ c r) ≡ String.◌∷◌ c (unquote r)
unfolding unquote
unquote-cons = unquote_from-nil_plain

pub unquote-nil : unquote "" ≡ ""
unfolding unquote unquote_from
unquote-nil = decode-nil

-- A character that quoting can add.
abbrev pub is_escape_character : ℕ → Bool
is_escape_character c = eqb c b'%' || (leb b'0' c && leb c b'9') || (leb b'A' c && leb c b'F')

code-hex_digit : (n : ℕ) → n < 16 → is_escape_character (code (hex_digit n)) ≡ true
unfolding hex_digit
code-hex_digit n h = ground (arith, code-to_char (48 + n), code-to_char (55 + n))

contains-escape_bytes :
    (d : Char) (bs : List ℕ) (r : String)
    → is_escape_character (code d) ≡ false
    → All (λ b. b < 256) bs
    → contains d r ≡ false
    → contains d (escape_bytes bs r) ≡ false
unfolding contains escape_bytes
contains-escape_bytes d [] r h k e = e
contains-escape_bytes d (b ∷ bs) r h (k, ks) e =
    ground
      (arith, contains-escape_bytes d bs r h ks e, code-hex_digit (b / 16), code-hex_digit (b % 16))

-- Quoting adds no other character, so a separator that was not there is still not there.
pub contains-quote :
    (safe : String) (d : Char) (s : String)
    → is_escape_character (code d) ≡ false
    → contains d s ≡ false
    → contains d (quote safe s) ≡ false
unfolding contains quote
contains-quote safe d String.[] h k = refl
contains-quote safe d (String.◌∷◌ c s) h k = elim (Bool-cases (is_safe safe c)) [
  | inl p ↦ rw p (ground (arith, contains-quote safe d s h))
  | inr p ↦ rw p (
      contains-escape_bytes d _ _ h (encode_char-All (code c) (scalar_range c).0)
        (contains-quote safe d s h (ground arith)))
]

-- Quoting leaves nothing empty.
pub is_empty-quote : (safe s : String) → is_empty s ≡ false → is_empty (quote safe s) ≡ false
unfolding quote escape_bytes encode_char
is_empty-quote safe String.[] h = cc
is_empty-quote safe (String.◌∷◌ c s) h = ground arith
