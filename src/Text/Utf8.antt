-- ===== src/Text/Utf8.antt =====
-- UTF-8: `str.encode()` and `bytes.decode("utf-8", errors="replace")`.
pub mod RoundTrip
use Prim.Native.String
use text.Mathlib.TextLemmas.{nil-append, cons-append}
use parqdb.Prelude.{
  ℕ, zero, suc, ◌+◌, ◌-◌, ◌*◌, ◌/◌, ◌%◌, ◌<◌, ◌≤◌, String, ◌⊎◌, inl, inr, Char, code, ◌≡◌, refl, ap,
  Bool, true, false, ◌&&◌, ◌||◌, List, [], ◌∷◌, ◌++◌, append_assoc, arith, eqb, leb, ltb,
  if◌then◌else◌,
}
use parqdb.Text.Chars.{replacement, to_char, to_char-code}

-- The bytes of one character.
unfoldable pub encode_char : ℕ → List ℕ
encode_char n =
    if ltb n 128
    then n ∷ []
    else if ltb n 2048
    then (192 + n / 64) ∷ (128 + n % 64) ∷ []
    else if ltb n 65536
    then (224 + n / 4096) ∷ (128 + n / 64 % 64) ∷ (128 + n % 64) ∷ []
    else (240 + n / 262144) ∷ (128 + n / 4096 % 64) ∷ (128 + n / 64 % 64) ∷ (128 + n % 64) ∷ []

unfoldable pub encode : String → List ℕ
encode String.[] = []
encode (String.◌∷◌ c s) = encode_char (code c) ++ encode s

-- What the decoder has read of a character: `more` bytes are missing, and the next one must lie
-- between `low` and `high`.
pub data State : Type 0 where
  ready : State
  partial : (more low high value : ℕ) → State

abbrev between : ℕ → ℕ → ℕ → Bool
between lo b hi = leb lo b && leb b hi

-- The first byte of a character.
first : ℕ → List Char × State
first b =
    if ltb b 128
    then (to_char b ∷ [], ready)
    else if between 194 b 223
    then ([], partial 1 128 191 (b - 192))
    else if between 224 b 239
    then ([], partial 2 (if eqb b 224 then 160 else 128) (if eqb b 237 then 159 else 191) (b - 224))
    else if between 240 b 244
    then ([], partial 3 (if eqb b 240 then 144 else 128) (if eqb b 244 then 143 else 191) (b - 240))
    else (replacement ∷ [], ready)

-- A byte that does not continue a character ends it, and is read as a first byte.
broken : List Char × State → List Char × State
broken (out, st) = (replacement ∷ out, st)

step : State → ℕ → List Char × State
unfolding first broken
step ready b = first b
step (partial more lo hi v) b =
    if between lo b hi
    then if eqb more 1
      then (to_char (v * 64 + (b - 128)) ∷ [], ready)
      else ([], partial (more - 1) 128 191 (v * 64 + (b - 128)))
    else broken (first b)

abbrev prepend : List Char → String → String
prepend [] s = s
prepend (c ∷ cs) s = String.◌∷◌ c (prepend cs s)

decode_from : State → List ℕ → String
unfolding step
decode_from ready [] = ""
decode_from (partial more lo hi v) [] = String.◌∷◌ replacement ""
decode_from st (b ∷ bs) = let (out, st') = step st b in prepend out (decode_from st' bs)

unfoldable pub decode : List ℕ → String
unfolding decode_from
decode bs = decode_from ready bs

decode_samples :
    (decode (0xe2 ∷ 0x82 ∷ 0xac ∷ 0x41 ∷ []) ≡ "€A")
    × (decode (0xe2 ∷ 0x82 ∷ 0x41 ∷ 0xff ∷ []) ≡ "�A�")
    × (decode (0xe0 ∷ 0x80 ∷ 0x80 ∷ []) ≡ "���")
    × (decode (0xf0 ∷ 0x9f ∷ 0x98 ∷ 0x80 ∷ 0xc3 ∷ []) ≡ "😀�")
unfolding decode to_char
decode_samples = (refl, refl, refl, refl)
