-- ===== src/Sources/Containment.antt =====
-- What an authorized object lies below.

use parqdb.Prelude.{
  String, Bool, true, not, ◌&&◌, ◌||◌, ◌==◌, List, [], ◌∷◌, ◌++◌, All, All-append, any, eq_iff, ◌≡◌,
  refl, sym, ap, ◌∙◌, Bool-cases, inl, inr, subst,
}
use parqdb.Python.Exceptions.{
  Result, ok, >>=-eq-ok, ok_injective, require, require-eq_ok, value_error, permission_error,
}
use parqdb.Text.Chars.{contains, is_empty, format}
use parqdb.Text.Quote.{quote}
use parqdb.Text.Url.{SplitResult, urlsplit}
use parqdb.Sources.{
  ObjectPrefix, SourceUriPolicy, object_prefix, matches_object_prefix, authorize_object, add_prefix,
  add_prefixes, source_uri_policy, is_local, local_path, contains_glob, fspath,
  normalize_object_path, safe_characters,
}
use parqdb.Sources.Paths.{IsPlain, absolute, normalize_object_path-eq_ok}
use parqdb.Sources.Below.{and_true, or_true, path_below}

-- A prefix whose path is normalized.
pub record IsNormal (prefix : ObjectPrefix) : Type 0 where
  pub parts : List String
  pub same : prefix.path ≡ absolute parts
  pub plain : All IsPlain parts

pub object_prefix-IsNormal :
    (parsed : SplitResult) (o : ObjectPrefix)
    → object_prefix parsed ≡ ok o
    → (o.scheme ≡ parsed.scheme) × (o.authority ≡ parsed.netloc) × IsNormal o
unfolding object_prefix
object_prefix-IsNormal parsed o h =
    let (_, _, h₁) =
      >>=-eq-ok (require (not (is_empty parsed.scheme || parsed.scheme == "file")) value_error _) _
        h in
    let (_, _, h₂) = >>=-eq-ok (require (not (contains "@" parsed.netloc)) value_error _) _ h₁ in
    let (_, _, h₃) = >>=-eq-ok (require (not (is_empty parsed.netloc)) value_error _) _ h₂ in
    let (_, _, h₄) =
      >>=-eq-ok (require (is_empty parsed.query && is_empty parsed.fragment) value_error _) _ h₃ in
    let (path, e, h₅) = >>=-eq-ok (normalize_object_path parsed.path) _ h₄ in
    let (parts, same, plain) = normalize_object_path-eq_ok parsed.path path e in
    rw (← ok_injective h₅) (refl, refl, record { parts = parts; same = same; plain = plain })

-- An element that passes a test, and the property that all elements have.
any-All :
    (f : ObjectPrefix → Bool) (xs : List ObjectPrefix)
    → All IsNormal xs
    → any f xs ≡ true
    → (x : ObjectPrefix) × (front back : List ObjectPrefix) × (xs ≡ front ++ x ∷ back)
      × IsNormal x
      × (f x ≡ true)
any-All f [] h e = cc
any-All f (x ∷ xs) (p, h) e = elim (or_true (f x) (any f xs) e) [
  | inl here ↦ (x, [], xs, refl, p, here)
  | inr there ↦
      let (y, front, back, same, q, found) = any-All f xs h there in
      (y, x ∷ front, back, ap (λ ys. x ∷ ys) same, q, found)
]

matches-below :
    (candidate prefix : ObjectPrefix) (c : IsNormal candidate) (n : IsNormal prefix)
    → matches_object_prefix candidate prefix ≡ true
    → (candidate.scheme ≡ prefix.scheme)
      × (candidate.authority ≡ prefix.authority)
      × (rest : List String) × (c.parts ≡ n.parts ++ rest)
unfolding matches_object_prefix
matches-below candidate prefix c n h =
    let (names, below) = and_true _ _ h in
    let (scheme, authority) = and_true _ _ names in
    let (rest, e) = path_below n.parts c.parts n.plain c.plain (rw (c.same, n.same) at below) in
    ((eq_iff _ _).0 scheme, (eq_iff _ _).0 authority, rest, e)

-- If every prefix of the policy is normalized, an authorized object URI has the scheme and the
-- authority of one of the policy's prefixes, and its path, percent-encoded, is that of the
-- parts of this prefix with further parts after them, all parts being non-empty, without
-- slashes and neither `.` nor `..`.
pub authorize_object-below :
    (policy : SourceUriPolicy) (parsed : SplitResult) (uri : String)
    → All IsNormal policy.object_prefixes
    → authorize_object policy parsed ≡ ok uri
    → (prefix : ObjectPrefix) × (front back : List ObjectPrefix) × (rest : List String)
      × (n : IsNormal prefix) × (policy.object_prefixes ≡ front ++ prefix ∷ back)
      × (parsed.scheme ≡ prefix.scheme)
      × (parsed.netloc ≡ prefix.authority)
      × All IsPlain (n.parts ++ rest)
      × (uri
          ≡ format (
              prefix.scheme
              ∷ "://"
              ∷ prefix.authority
              ∷ quote safe_characters (absolute (n.parts ++ rest))
              ∷ []))
unfolding authorize_object
authorize_object-below policy parsed uri h e =
    let (o, e₁, h₁) = >>=-eq-ok (object_prefix parsed) _ e in
    let (_, e₂, h₂) =
      >>=-eq-ok (require (any (matches_object_prefix o) policy.object_prefixes) permission_error _)
        _ h₁ in
    let (scheme, authority, normal) = object_prefix-IsNormal parsed o e₁ in
    let (prefix, front, back, listed, n, found) =
      any-All (matches_object_prefix o) policy.object_prefixes h (require-eq_ok _ _ _ e₂) in
    let (s, a, rest, parts) = matches-below o prefix normal n found in
    (
      prefix,
      front,
      back,
      rest,
      n,
      listed,
      sym scheme ∙ s,
      sym authority ∙ a,
      subst (All IsPlain) parts normal.plain,
      sym (ok_injective h₂) ∙ rw (s, a, normal.same, parts) refl,
    )

module _ (check_netloc : String → Result (Unit {0})) (resolve : String → Result (List String)) where
  add_prefix-IsNormal :
      (policy more : SourceUriPolicy) (reference : String)
      → All IsNormal policy.object_prefixes
      → add_prefix check_netloc resolve policy reference ≡ ok more
      → All IsNormal more.object_prefixes
  unfolding add_prefix
  add_prefix-IsNormal policy more reference h e =
      let (parsed, _, h₁) = >>=-eq-ok (urlsplit check_netloc reference) _ e in
      elim (Bool-cases (is_local parsed)) [
        | inl local ↦
            let (path, _, h₂) = >>=-eq-ok (local_path parsed reference) _ (rw local at h₁) in
            let (root, _, h₃) = >>=-eq-ok (resolve path) _ h₂ in
            let (_, _, h₄) =
              >>=-eq-ok (require (not (contains_glob (fspath root))) value_error _) _ h₃ in
            rw (← ok_injective h₄) h
        | inr remote ↦
            let (prefix, found, h₂) = >>=-eq-ok (object_prefix parsed) _ (rw remote at h₁) in
            let (_, _, h₃) =
              >>=-eq-ok (require (not (contains_glob prefix.path)) value_error _) _ h₂ in
            let (_, _, normal) = object_prefix-IsNormal parsed prefix found in
            rw (← ok_injective h₃)
              (All-append IsNormal policy.object_prefixes (prefix ∷ []) h (normal, tt))
      ]

  add_prefixes-IsNormal :
      (policy more : SourceUriPolicy) (references : List String)
      → All IsNormal policy.object_prefixes
      → add_prefixes check_netloc resolve policy references ≡ ok more
      → All IsNormal more.object_prefixes
  unfolding add_prefixes
  add_prefixes-IsNormal policy more [] h e = rw (← ok_injective e) h
  add_prefixes-IsNormal policy more (reference ∷ references) h e =
      let (next, e₁, h₁) = >>=-eq-ok (add_prefix check_netloc resolve policy reference) _ e in
      add_prefixes-IsNormal next more references (add_prefix-IsNormal policy next reference h e₁) h₁

  -- Every object prefix of a policy that is made is normalized: its path is that of parts that
  -- are non-empty, without slashes and neither `.` nor `..`.
  pub source_uri_policy-IsNormal :
      (prefixes : List String) (name : String) (policy : SourceUriPolicy)
      → source_uri_policy check_netloc resolve prefixes name ≡ ok policy
      → All IsNormal policy.object_prefixes
  unfolding source_uri_policy
  source_uri_policy-IsNormal prefixes name policy e = add_prefixes-IsNormal _ policy prefixes tt e
