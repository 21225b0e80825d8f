-- ===== src/Text/Trim.antt =====
-- s.lstrip(d) and s.rstrip(d) of one character, s.startswith(p), and joined texts.
use Prim.Native.String
use text.Mathlib.TextLemmas.{nil-append, cons-append, append_assoc}
use parqdb.Prelude.{
  String, Char, code, Bool, true, false, ◌&&◌, List, [], ◌∷◌, ◌++◌, Option, some, none, eqb, ◌≡◌,
  refl, sym, ap, Bool-cases, inl, inr, eqb_iff, ◌∙◌, arith, if◌then◌else◌,
}
use parqdb.Text.Chars.{contains, is_empty, strip_prefix}
use parqdb.Text.Split.{split, join, one}

unfoldable pub lstrip : Char → String → String
lstrip d String.[] = ""
lstrip d (String.◌∷◌ c s) =
    let rest = lstrip d s in if eqb (code c) (code d) then rest else String.◌∷◌ c s

unfoldable pub rstrip : Char → String → String
rstrip d String.[] = ""
rstrip d (String.◌∷◌ c s) =
    let rest = rstrip d s in
    if is_empty rest && eqb (code c) (code d) then "" else String.◌∷◌ c rest

abbrev pub is_some {ℓ} : {A : Type ℓ} → Option A → Bool
is_some none = false
is_some (some a) = true

abbrev pub starts_with : String → String → Bool
starts_with p s = is_some (strip_prefix p s)

pub split-some : (d : Char) (s : String) → (p : String) × (ps : List String) × (split d s ≡ p ∷ ps)
unfolding split
split-some d String.[] = ("", [], refl)
split-some d (String.◌∷◌ c s) = elim (Bool-cases (eqb (code c) (code d))) [
  | inl e ↦ ("", split d s, rw e refl)
  | inr e ↦ let (p, ps, found) = split-some d s in (String.◌∷◌ c p, ps, rw (e, found) refl)
]

-- Splitting around a separator splits both sides.
pub split-append :
    (d : Char) (s t : String) → split d (String.◌++◌ s (String.◌∷◌ d t)) ≡ split d s ++ split d t
unfolding split
split-append d String.[] t = rw (nil-append, (eqb_iff (code d) (code d)).1 refl) refl
split-append d (String.◌∷◌ c s) t = elim (Bool-cases (eqb (code c) (code d))) [
  | inl e ↦ rw (cons-append, e, split-append d s t) refl
  | inr e ↦
      let (p, ps, found) = split-some d s in rw (cons-append, e, split-append d s t, found) refl
]

-- Joining two lists of texts puts a separator between them.
pub join-append :
    (d : Char) (p q : String) (ps qs : List String)
    → join (one d) ((p ∷ ps) ++ (q ∷ qs))
      ≡ String.◌++◌ (join (one d) (p ∷ ps)) (String.◌∷◌ d (join (one d) (q ∷ qs)))
unfolding join
join-append d p q [] qs = rw (cons-append, nil-append) refl
join-append d p q (r ∷ ps) qs =
    rw (join-append d r q ps qs, cons-append, nil-append, append_assoc, append_assoc)
      (ap (λ r. String.◌++◌ p r)
        (sym (cons-append d "" _ ∙ ap (λ r. String.◌∷◌ d r) (nil-append _))))

-- A text that ends in a part without the character is not stripped.
pub rstrip_without : (d : Char) (s : String) → contains d s ≡ false → rstrip d s ≡ s
unfolding rstrip contains
rstrip_without d String.[] h = refl
rstrip_without d (String.◌∷◌ c s) h = ground (arith, rstrip_without d s)

is_empty-append : (s t : String) → is_empty t ≡ false → is_empty (String.◌++◌ s t) ≡ false
is_empty-append String.[] t k = rw nil-append k
is_empty-append (String.◌∷◌ c s) t k = rw cons-append refl

pub rstrip-append :
    (d : Char) (s t : String)
    → rstrip d t ≡ t
    → is_empty t ≡ false
    → rstrip d (String.◌++◌ s t) ≡ String.◌++◌ s t
unfolding rstrip
rstrip-append d String.[] t h k = rw nil-append h
rstrip-append d (String.◌∷◌ c s) t h k =
    rw (cons-append, rstrip-append d s t h k, is_empty-append s t k) refl
