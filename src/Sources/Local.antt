-- ===== src/Sources/Local.antt =====
-- What an authorized local path lies below.

use parqdb.Prelude.{
  String, true, List, [], ◌∷◌, ◌++◌, any, eq_iff, ◌≡◌, refl, sym, ap, ◌∙◌, inl, inr,
}
use parqdb.Python.Exceptions.{
  Result, ok, >>=-eq-ok, ok_injective, require, require-eq_ok, permission_error,
}
use parqdb.Text.Url.{SplitResult}
use parqdb.Sources.{
  SourceUriPolicy, starts_with_parts, is_below, authorize_local, local_path, fspath,
}
use parqdb.Sources.Below.{and_true, or_true}

-- A part-wise prefix is what the path begins with.
starts_with_parts-eq :
    (root path : List String)
    → starts_with_parts root path ≡ true
    → (rest : List String) × (path ≡ root ++ rest)
starts_with_parts-eq [] path h = (path, refl)
starts_with_parts-eq (r ∷ root) [] h = cc
starts_with_parts-eq (r ∷ root) (p ∷ path) h =
    let (same, below) = and_true _ _ h in
    let (rest, e) = starts_with_parts-eq root path below in (rest, rw (e, (eq_iff r p).0 same) refl)

any-root :
    (path : List String) (roots : List (List String))
    → any (λ root. is_below path root) roots ≡ true
    → (root rest : List String) × (front back : List (List String)) × (roots ≡ front ++ root ∷ back)
      × (path ≡ root ++ rest)
any-root path [] h = cc
any-root path (root ∷ roots) h = elim (or_true (is_below path root) _ h) [
  | inl here ↦
      let (rest, e) = starts_with_parts-eq root path here in (root, rest, [], roots, refl, e)
  | inr there ↦
      let (found, rest, front, back, listed, e) = any-root path roots there in
      (found, rest, root ∷ front, back, ap (λ rs. root ∷ rs) listed, e)
]

module _ (resolve : String → Result (List String)) where
  -- An authorized local path is the resolved path of the reference, and its parts are those of
  -- one of the policy's file roots with further parts after them.
  pub authorize_local-below :
      (check_netloc : String → Result (Unit {0})) (policy : SourceUriPolicy) (parsed : SplitResult)
      (reference path : String)
      → authorize_local check_netloc resolve policy parsed reference ≡ ok path
      → (local : String) × (root rest : List String) × (front back : List (List String))
        × (local_path parsed reference ≡ ok local)
        × (resolve local ≡ ok (root ++ rest))
        × (policy.file_roots ≡ front ++ root ∷ back)
        × (path ≡ fspath (root ++ rest))
  unfolding authorize_local
  authorize_local-below check_netloc policy parsed reference path h =
      let (local, e₁, h₁) = >>=-eq-ok (local_path parsed reference) _ h in
      let (parts, e₂, h₂) = >>=-eq-ok (resolve local) _ h₁ in
      let (_, e₃, h₃) =
        >>=-eq-ok (require (any (λ root. is_below parts root) policy.file_roots) permission_error _)
          _ h₂ in
      let (root, rest, front, back, listed, e₄) =
        any-root parts policy.file_roots (require-eq_ok _ _ _ e₃) in
      (
        local,
        root,
        rest,
        front,
        back,
        e₁,
        e₂ ∙ ap ok e₄,
        listed,
        sym (ok_injective h₃) ∙ ap fspath e₄,
      )
