-- ===== src/Sources/Below.antt =====
-- When a path, as a text, begins with another one.
use Prim.Native.String
use text.Mathlib.TextLemmas.{nil-append, cons-append, append_assoc}
use text.Mathlib.TextLemmas
use parqdb.Prelude.{
  String, Bool, true, false, ◌&&◌, ◌||◌, ◌==◌, List, [], ◌∷◌, ◌++◌, All, append-nil, eq_iff, ◌≡◌,
  refl, sym, ap, ◌∙◌, arith, Option-cases, inl, inr, ◌⊎◌,
}
use parqdb.Text.Chars.{contains, is_empty, format, strip_prefix, strip_prefix-eq_some}
use parqdb.Text.Split.{split, join, split-join}
use parqdb.Text.Trim.{rstrip, rstrip_without, rstrip-append, split-append, starts_with}
use parqdb.Models.Paths.RoundTrip.{is_empty-join}
use parqdb.Sources.{or_text}
use parqdb.Sources.Paths.{IsPlain, absolute}

absolute-eq : (parts : List String) → absolute parts ≡ String.◌∷◌ "/" (join "/" parts)
unfolding format
absolute-eq parts = rw (cons-append, nil-append, TextLemmas.append-nil) refl

All_whole : (parts : List String) → All IsPlain parts → All (λ s. contains "/" s ≡ false) parts
All_whole [] h = tt
All_whole (p ∷ ps) (plain, h) = (plain.whole, All_whole ps h)

split-plain :
    (p : String) (ps : List String)
    → All IsPlain (p ∷ ps)
    → split "/" (absolute (p ∷ ps)) ≡ "" ∷ p ∷ ps
unfolding split
split-plain p ps h =
    rw (absolute-eq (p ∷ ps)) (ap (λ r. "" ∷ r) (split-join "/" p ps (All_whole (p ∷ ps) h)))

rstrip-join :
    (p : String) (ps : List String)
    → All IsPlain (p ∷ ps)
    → rstrip "/" (join "/" (p ∷ ps)) ≡ join "/" (p ∷ ps)
unfolding join
rstrip-join p [] (plain, h) = rstrip_without "/" p plain.whole
rstrip-join p (q ∷ ps) (plain, h) =
    rstrip-append "/" p _
      (rstrip-append "/" "/" (join "/" (q ∷ ps)) (rstrip-join q ps h)
        (is_empty-join "/" q ps h.0.full))
      (rw cons-append refl)

rstrip-absolute :
    (p : String) (ps : List String)
    → All IsPlain (p ∷ ps)
    → rstrip "/" (absolute (p ∷ ps)) ≡ absolute (p ∷ ps)
unfolding rstrip
rstrip-absolute p ps h =
    rw (absolute-eq (p ∷ ps), rstrip-join p ps h, is_empty-join "/" p ps h.0.full) refl

split-root : split "/" (absolute []) ≡ "" ∷ "" ∷ []
unfolding split format join
split-root = refl

nonempty_lem : (s : String) → is_empty s ≡ false → "" ≡ s → ⊥
nonempty_lem String.[] h e = cc
nonempty_lem (String.◌∷◌ c s) h e = cc

second : {a b : String} {x y : String} {xs ys : List String} → a ∷ x ∷ xs ≡ b ∷ y ∷ ys → x ≡ y
second e = cc

-- Splitting shows the parts of what follows a slash.
below_lem :
    (p : String) (ps cs : List String) (t : String)
    → All IsPlain (p ∷ ps)
    → All IsPlain cs
    → absolute cs ≡ String.◌++◌ (absolute (p ∷ ps)) (String.◌∷◌ "/" t)
    → cs ≡ (p ∷ ps) ++ split "/" t
below_lem p ps [] t h k e =
    let sides : "" ∷ "" ∷ [] ≡ ("" ∷ p ∷ ps) ++ split "/" t =
      sym split-root
      ∙ ap (split "/") e
      ∙ split-append "/" (absolute (p ∷ ps)) t
      ∙ rw (split-plain p ps h) refl in
    absurd (nonempty_lem p h.0.full (second sides))
below_lem p ps (c ∷ cs) t h k e =
    let sides : "" ∷ c ∷ cs ≡ ("" ∷ p ∷ ps) ++ split "/" t =
      sym (split-plain c cs k)
      ∙ ap (split "/") e
      ∙ split-append "/" (absolute (p ∷ ps)) t
      ∙ rw (split-plain p ps h) refl in
    cc

absolute_injective :
    (p : String) (ps cs : List String)
    → All IsPlain (p ∷ ps)
    → All IsPlain cs
    → absolute cs ≡ absolute (p ∷ ps)
    → cs ≡ p ∷ ps
absolute_injective p ps [] h k e =
    absurd
      (nonempty_lem p h.0.full (second (sym split-root ∙ ap (split "/") e ∙ split-plain p ps h)))
absolute_injective p ps (c ∷ cs) h k e =
    let sides = sym (split-plain c cs k) ∙ ap (split "/") e ∙ split-plain p ps h in cc

pub and_true : (a b : Bool) → a && b ≡ true → (a ≡ true) × (b ≡ true)
and_true a b h = ground arith

pub or_true : (a b : Bool) → a || b ≡ true → (a ≡ true) ⊎ (b ≡ true)
or_true a b h = ground arith

root-absolute :
    (p : String) (ps : List String)
    → All IsPlain (p ∷ ps)
    → or_text (rstrip "/" (absolute (p ∷ ps))) "/" ≡ absolute (p ∷ ps)
root-absolute p ps h = rw (rstrip-absolute p ps h, absolute-eq (p ∷ ps)) refl

starts_with-eq :
    (s t : String) → starts_with s t ≡ true → (rest : String) × (t ≡ String.◌++◌ s rest)
starts_with-eq s t h = elim (Option-cases (strip_prefix s t)) [
  | inl e ↦ absurd (cc)
  | inr (rest, e) ↦ (rest, strip_prefix-eq_some s t rest e)
]

slash-append :
    (root rest : String)
    → String.◌++◌ (format (root ∷ "/" ∷ [])) rest ≡ String.◌++◌ root (String.◌∷◌ "/" rest)
unfolding format
slash-append root rest = append_assoc root _ rest ∙ rw (cons-append, nil-append) refl

-- A path that the text test finds below a root is below it part by part.
pub path_below :
    (ps cs : List String)
    → All IsPlain ps
    → All IsPlain cs
    → ((absolute cs == or_text (rstrip "/" (absolute ps)) "/")
        || starts_with
            (format (rstrip "/" (or_text (rstrip "/" (absolute ps)) "/") ∷ "/" ∷ []))
            (absolute cs))
      ≡ true
    → (rest : List String) × (cs ≡ ps ++ rest)
path_below [] cs h k e = (cs, refl)
path_below (p ∷ ps) cs h k e =
    elim (or_true _ _ (rw (root-absolute p ps h, rstrip-absolute p ps h) at e)) [
      | inl same ↦ (
        [],
        absolute_injective p ps cs h k ((eq_iff (absolute cs) (absolute (p ∷ ps))).0 same)
            ∙ sym (append-nil (p ∷ ps)),
      )
      | inr below ↦
          let (rest, found) =
            starts_with-eq (format (absolute (p ∷ ps) ∷ "/" ∷ [])) (absolute cs) below in
          (
            split "/" rest,
            below_lem p ps cs rest h k (found ∙ slash-append (absolute (p ∷ ps)) rest),
          )
    ]
