-- ===== src/Sources/Paths.antt =====
-- Normalized object paths.

use parqdb.Prelude.{
  String, Char, code, Bool, true, false, not, ◌||◌, ◌==◌, List, [], ◌∷◌, All, eqb, ◌≡◌, refl, sym,
  ◌∙◌, Bool-cases, inl, inr, if◌then◌else◌,
}
use parqdb.Python.Exceptions.{ok, >>=-eq-ok, ok_injective, require, value_error}
use parqdb.Text.Chars.{contains, is_empty, format}
use parqdb.Text.Split.{split, join}
use parqdb.Text.Trim.{lstrip, split-some}
use parqdb.Text.Quote.{unquote}
use parqdb.Sources.{
  push, without_first, normal_parts, reversed, is_dotdot, is_control, normpath,
  normalize_object_path,
}

-- A part of a normalized path.
pub record IsPlain (part : String) : Type 0 where
  pub full : is_empty part ≡ false
  pub not_dot : (part == ".") ≡ false
  pub not_dotdot : (part == "..") ≡ false
  pub whole : contains "/" part ≡ false

-- The path of these parts.
abbrev pub absolute : List String → String
absolute parts = format ("/" ∷ join "/" parts ∷ [])

-- The choice that `push` makes, by what its tests say.
pushed :
    (stack : List String) (part : String) (empty dot dotdot : Bool)
    → is_empty part ≡ empty
    → (part == ".") ≡ dot
    → (part == "..") ≡ dotdot
    → contains "/" part ≡ false
    → is_dotdot stack ≡ false
    → All IsPlain stack
    → All IsPlain (without_first stack)
    → All IsPlain (
        if empty || dot
        then stack
        else if not dotdot || is_dotdot stack
        then part ∷ stack
        else without_first stack)
pushed stack part true dot dotdot e f g whole k h tail = h
pushed stack part false true dotdot e f g whole k h tail = h
pushed stack part false false false e f g whole k h tail =
    (record { full = e; not_dot = f; not_dotdot = g; whole = whole }, h)
pushed stack part false false true e f g whole k h tail = rw k tail

push-IsPlain :
    (stack : List String) (part : String)
    → All IsPlain stack
    → contains "/" part ≡ false
    → All IsPlain (push stack part)
unfolding push
push-IsPlain [] part h whole = pushed [] part _ _ _ refl refl refl whole refl tt tt
push-IsPlain (top ∷ stack) part (p, h) whole =
    pushed (top ∷ stack) part _ _ _ refl refl refl whole p.not_dotdot (p, h) h

normal_parts-IsPlain :
    (stack parts : List String)
    → All IsPlain stack
    → All (λ s. contains "/" s ≡ false) parts
    → All IsPlain (normal_parts stack parts)
unfolding normal_parts
normal_parts-IsPlain stack [] h whole = h
normal_parts-IsPlain stack (part ∷ parts) h (w, whole) =
    normal_parts-IsPlain (push stack part) parts (push-IsPlain stack part h w) whole

reversed-IsPlain :
    (parts done : List String)
    → All IsPlain parts
    → All IsPlain done
    → All IsPlain (reversed parts done)
reversed-IsPlain [] done h k = k
reversed-IsPlain (part ∷ parts) done (p, h) k = reversed-IsPlain parts (part ∷ done) h (p, k)

split-whole : (d : Char) (s : String) → All (λ p. contains d p ≡ false) (split d s)
unfolding split contains
split-whole d String.[] = (refl, tt)
split-whole d (String.◌∷◌ c s) = elim (Bool-cases (eqb (code c) (code d))) [
  | inl e ↦ rw e (refl, split-whole d s)
  | inr e ↦
      let (p, ps, found) = split-some d s in
      let each = split-whole d s in
      let (w, ws) = rw found at each in rw (e, found) (rw (e, w) refl, ws)
]

normal_parts-split-IsPlain :
    (path : String) → All IsPlain (reversed (normal_parts [] (split "/" path)) [])
normal_parts-split-IsPlain path =
    reversed-IsPlain (normal_parts [] (split "/" path)) []
      (normal_parts-IsPlain [] (split "/" path) tt (split-whole "/" path)) tt

single : "/" ≡ absolute []
unfolding format join
single = refl

-- A normalized path is that of plain parts.
pub normalize_object_path-eq_ok :
    (path normalized : String)
    → normalize_object_path path ≡ ok normalized
    → (parts : List String) × (normalized ≡ absolute parts) × All IsPlain parts
unfolding normalize_object_path normpath
normalize_object_path-eq_ok path normalized h =
    let (_, _, h₁) = >>=-eq-ok (require (not (is_control (unquote path))) value_error _) _ h in
    let slashed = format ("/" ∷ lstrip "/" (unquote path) ∷ []) in
    let parts = reversed (normal_parts [] (split "/" slashed)) [] in
    elim (Bool-cases (absolute parts == "/.")) [
      | inl e ↦ ([], sym (ok_injective h₁) ∙ rw e single, tt)
      | inr e ↦ (parts, sym (ok_injective h₁) ∙ rw e refl, normal_parts-split-IsPlain slashed)
    ]
