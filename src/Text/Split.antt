-- ===== src/Text/Split.antt =====
-- str.split and str.join with a separator of one character.
use Prim.Native.String
use text.Mathlib.TextLemmas.{nil-append, cons-append}
use parqdb.Prelude.{
  String, Char, code, ◌≡◌, refl, ap, false, List, [], ◌∷◌, arith, eqb, eqb_iff, All, if◌then◌else◌,
}
use parqdb.Text.Chars.{contains}

abbrev pub extend : Char → List String → List String
extend c [] = (String.◌∷◌ c "") ∷ []
extend c (p ∷ ps) = (String.◌∷◌ c p) ∷ ps

-- s.split(d)
unfoldable pub split : Char → String → List String
split d String.[] = "" ∷ []
split d (String.◌∷◌ c s) =
    let parts = split d s in if eqb (code c) (code d) then "" ∷ parts else extend c parts

-- sep.join(parts)
unfoldable pub join : String → List String → String
join sep [] = ""
join sep (p ∷ []) = p
join sep (p ∷ q ∷ ps) = String.◌++◌ p (String.◌++◌ sep (join sep (q ∷ ps)))

abbrev pub one : Char → String
one d = String.◌∷◌ d ""

split-cons_ne :
    (d c : Char) (s : String)
    → eqb (code c) (code d) ≡ false
    → split d (String.◌∷◌ c s) ≡ extend c (split d s)
unfolding split
split-cons_ne d c s h = rw h

split-cons_self : (d : Char) (s : String) → split d (String.◌∷◌ d s) ≡ "" ∷ split d s
unfolding split
split-cons_self d s = rw ((eqb_iff (code d) (code d)).1 refl)

contains-cons :
    (d c : Char) (s : String)
    → contains d (String.◌∷◌ c s) ≡ false
    → (eqb (code c) (code d) ≡ false) × (contains d s ≡ false)
unfolding contains
contains-cons d c s h = ground arith

split-append :
    (d : Char) (s t : String)
    → contains d s ≡ false
    → split d (String.◌++◌ s (String.◌∷◌ d t)) ≡ s ∷ split d t
split-append d String.[] t h = rw nil-append (split-cons_self d t)
split-append d (String.◌∷◌ c s) t h =
    let (ne, h') = contains-cons d c s h in
    rw (cons-append, split-cons_ne d c _ ne, split-append d s t h') refl

pub split_without : (d : Char) (s : String) → contains d s ≡ false → split d s ≡ s ∷ []
unfolding contains split
split_without d String.[] h = refl
split_without d (String.◌∷◌ c s) h = ground (arith, split_without d s)

-- Splitting what was joined gives the parts back, if none holds the separator.
pub split-join :
    (d : Char) (p : String) (ps : List String)
    → All (λ s. contains d s ≡ false) (p ∷ ps)
    → split d (join (one d) (p ∷ ps)) ≡ p ∷ ps
unfolding join
split-join d p [] h = split_without d p h.0
split-join d p (q ∷ ps) h =
    rw (cons-append, nil-append, split-append d p _ h.0) (ap (λ r. p ∷ r) (split-join d q ps h.1))
