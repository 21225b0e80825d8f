-- ===== src/Text/Utf8/RoundTrip.antt =====
-- Decoding the UTF-8 bytes of a text gives the text back.
use Prim.Native.Char.{char, IsScalar}
use Prim.Native.Nat.{compare, Ordering}
use Prim.Native.String
use text.Mathlib.TextLemmas.{nil-append, cons-append, append-nil as string_append-nil}
use parqdb.Prelude.{
  ℕ, ◌+◌, ◌-◌, ◌*◌, ◌/◌, ◌%◌, ◌<◌, ◌≤◌, ◌⊎◌, inl, inr, String, Char, code, ◌≡◌, refl, ap, List, [],
  ◌∷◌, ◌++◌, append_assoc, append-nil, sym, arith, eqb, ltb, if◌then◌else◌, Bool-cases, ◌∙◌,
}
use parqdb.Text.Chars.{to_char, to_char-code}
use parqdb.Text.Utf8.{
  encode_char, encode, State, ready, partial, step, prepend, decode_from, decode,
}

decode_from-cons :
    (st : State) (b : ℕ) (bs : List ℕ)
    → decode_from st (b ∷ bs) ≡ prepend (step st b).0 (decode_from (step st b).1 bs)
unfolding decode_from
decode_from-cons ready b bs = refl
decode_from-cons (partial more lo hi v) b bs = refl

-- One step that is known.
decode_from-step :
    (st st' : State) (b : ℕ) (bs : List ℕ) (out : List Char)
    → step st b ≡ (out, st')
    → decode_from st (b ∷ bs) ≡ prepend out (decode_from st' bs)
decode_from-step st st' b bs out e =
    decode_from-cons st b bs ∙ ap (λ (r : List Char × State). prepend r.0 (decode_from r.1 bs)) e

step_ascii : (n : ℕ) → n < 128 → step ready n ≡ (to_char n ∷ [], ready)
unfolding step
step_ascii n h = ground arith

step_two : (a : ℕ) → 2 ≤ a → a < 32 → step ready (192 + a) ≡ ([], partial 1 128 191 a)
unfolding step
step_two a h k = ground arith

step_three :
    (a : ℕ)
    → a < 16
    → step ready (224 + a)
      ≡ ([], partial 2 (if eqb a 0 then 160 else 128) (if eqb a 13 then 159 else 191) a)
unfolding step
step_three a h = ground arith

step_four :
    (a : ℕ)
    → a < 5
    → step ready (240 + a)
      ≡ ([], partial 3 (if eqb a 0 then 144 else 128) (if eqb a 4 then 143 else 191) a)
unfolding step
step_four a h = ground arith

step_last :
    (lo hi v b : ℕ)
    → lo ≤ 128 + b
    → 128 + b ≤ hi
    → step (partial 1 lo hi v) (128 + b) ≡ (to_char (v * 64 + b) ∷ [], ready)
unfolding step
step_last lo hi v b h k = ground arith

step_more :
    (m lo hi v b : ℕ)
    → 2 ≤ m
    → lo ≤ 128 + b
    → 128 + b ≤ hi
    → step (partial m lo hi v) (128 + b) ≡ ([], partial (m - 1) 128 191 (v * 64 + b))
unfolding step
step_more m lo hi v b g h k = ground arith

decode_last :
    (lo hi v b : ℕ) (bs : List ℕ)
    → lo ≤ 128 + b
    → 128 + b ≤ hi
    → decode_from (partial 1 lo hi v) ((128 + b) ∷ bs)
      ≡ String.◌∷◌ (to_char (v * 64 + b)) (decode_from ready bs)
decode_last lo hi v b bs h k = decode_from-step _ _ _ bs _ (step_last lo hi v b h k)

decode_two_more :
    (lo hi v b c : ℕ) (bs : List ℕ)
    → lo ≤ 128 + b
    → 128 + b ≤ hi
    → c < 64
    → decode_from (partial 2 lo hi v) ((128 + b) ∷ (128 + c) ∷ bs)
      ≡ String.◌∷◌ (to_char ((v * 64 + b) * 64 + c)) (decode_from ready bs)
decode_two_more lo hi v b c bs h k l =
    decode_from-step _ _ _ _ _ (step_more 2 lo hi v b (omega arith) h k)
    ∙ decode_last 128 191 (v * 64 + b) c bs (omega arith) (omega arith)

decode_three_more :
    (lo hi v b c d : ℕ) (bs : List ℕ)
    → lo ≤ 128 + b
    → 128 + b ≤ hi
    → c < 64
    → d < 64
    → decode_from (partial 3 lo hi v) ((128 + b) ∷ (128 + c) ∷ (128 + d) ∷ bs)
      ≡ String.◌∷◌ (to_char (((v * 64 + b) * 64 + c) * 64 + d)) (decode_from ready bs)
decode_three_more lo hi v b c d bs h k l m =
    decode_from-step _ _ _ _ _ (step_more 3 lo hi v b (omega arith) h k)
    ∙ decode_two_more 128 191 (v * 64 + b) c d bs (omega arith) (omega arith) m

abbrev Decodes : ℕ → List ℕ → List ℕ → Type 0
Decodes n es bs = decode_from ready (es ++ bs) ≡ String.◌∷◌ (to_char n) (decode_from ready bs)

two_bytes :
    (n : ℕ) (bs : List ℕ) → 128 ≤ n → n < 2048 → Decodes n ((192 + n / 64) ∷ (128 + n % 64) ∷ []) bs
two_bytes n bs h k =
    decode_from-step _ _ _ _ _ (step_two (n / 64) (omega arith) (omega arith))
    ∙ decode_last 128 191 (n / 64) (n % 64) bs (omega arith) (omega arith)
    ∙ ap (λ m. String.◌∷◌ (to_char m) (decode_from ready bs)) (omega arith)

three_bytes :
    (n : ℕ) (bs : List ℕ)
    → 2048 ≤ n
    → n < 65536
    → (n < 55296) ⊎ (57343 < n)
    → Decodes n ((224 + n / 4096) ∷ (128 + n / 64 % 64) ∷ (128 + n % 64) ∷ []) bs
three_bytes n bs h k s =
    decode_from-step _ _ _ _ _ (step_three (n / 4096) (omega arith))
    ∙ decode_two_more _ _ (n / 4096) (n / 64 % 64) (n % 64) bs (ground arith) (ground arith)
        (omega arith)
    ∙ ap (λ m. String.◌∷◌ (to_char m) (decode_from ready bs)) (omega arith)

four_bytes :
    (n : ℕ) (bs : List ℕ)
    → 65536 ≤ n
    → n < 1114112
    → Decodes n
        ((240 + n / 262144) ∷ (128 + n / 4096 % 64) ∷ (128 + n / 64 % 64) ∷ (128 + n % 64) ∷ [])
        bs
four_bytes n bs h k =
    decode_from-step _ _ _ _ _ (step_four (n / 262144) (omega arith))
    ∙ decode_three_more _ _ (n / 262144) (n / 4096 % 64) (n / 64 % 64) (n % 64) bs (ground arith)
        (ground arith) (omega arith) (omega arith)
    ∙ ap (λ m. String.◌∷◌ (to_char m) (decode_from ready bs)) (omega arith)

decode_from-encode_char :
    (n : ℕ) (bs : List ℕ) → n < 1114112 → (n < 55296) ⊎ (57343 < n) → Decodes n (encode_char n) bs
unfolding encode_char
decode_from-encode_char n bs h s = elim (Bool-cases (ltb n 128)) [
  | inl p ↦ rw p (decode_from-step _ _ _ _ _ (step_ascii n (ground arith)))
  | inr p ↦ elim (Bool-cases (ltb n 2048)) [
    | inl q ↦ rw (p, q) (two_bytes n bs (ground arith) (ground arith))
    | inr q ↦ elim (Bool-cases (ltb n 65536)) [
      | inl r ↦ rw (p, q, r) (three_bytes n bs (ground arith) (ground arith) s)
      | inr r ↦ rw (p, q, r) (four_bytes n bs (ground arith) h)
    ]
  ]
]

range_of_comparisons :
    (n : ℕ) (s : IsScalar n) (a b c : Ordering)
    → compare n 55296 ≡ a
    → compare 57343 n ≡ b
    → compare n 1114112 ≡ c
    → (n < 1114112) × ((n < 55296) ⊎ (57343 < n))
range_of_comparisons n s Ordering.lt b c p q r = (ground arith, inl (ground arith))
range_of_comparisons n s Ordering.gt Ordering.lt Ordering.lt p q r =
    (ground arith, inr (ground arith))
range_of_comparisons n s Ordering.eq Ordering.lt c p q r = absurd (ground arith)
range_of_comparisons n s Ordering.eq Ordering.eq c p q r = absurd (rw (p, q) at s)
range_of_comparisons n s Ordering.eq Ordering.gt c p q r = absurd (rw (p, q) at s)
range_of_comparisons n s Ordering.gt Ordering.lt Ordering.eq p q r = absurd (rw (p, q, r) at s)
range_of_comparisons n s Ordering.gt Ordering.lt Ordering.gt p q r = absurd (rw (p, q, r) at s)
range_of_comparisons n s Ordering.gt Ordering.eq c p q r = absurd (rw (p, q) at s)
range_of_comparisons n s Ordering.gt Ordering.gt c p q r = absurd (rw (p, q) at s)

pub scalar_range : (c : Char) → (code c < 1114112) × ((code c < 55296) ⊎ (57343 < code c))
scalar_range (char n s) = range_of_comparisons n s _ _ _ refl refl refl

decode_from-encode :
    (s : String) (bs : List ℕ)
    → decode_from ready (encode s ++ bs) ≡ String.◌++◌ s (decode_from ready bs)
unfolding encode
decode_from-encode String.[] bs = rw nil-append
decode_from-encode (String.◌∷◌ c s) bs =
    let (h, k) = scalar_range c in
    rw
      (
        append_assoc,
        decode_from-encode_char (code c) _ h k,
        to_char-code,
        decode_from-encode s bs,
        cons-append,
      )
      refl

pub decode-encode : (s : String) → decode (encode s) ≡ s
unfolding decode decode_from
decode-encode s =
    ap (decode_from ready) (sym (append-nil (encode s)))
    ∙ decode_from-encode s []
    ∙ string_append-nil s
