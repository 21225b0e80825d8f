-- ===== src/Publish/Completion.antt =====
-- A publication to S3 that succeeds has written every object.
use text.Mathlib.TextLemmas
use parqdb.Prelude.{
  String, Bool, true, false, ◌||◌, ◌==◌, eq_iff, eq_refl, List, [], ◌∷◌, map, All, some, ◌≡◌, refl,
  sym, ap, ◌∙◌, arith, Bool-cases, inl, inr, subst,
}
use parqdb.Python.Exceptions.{Result, ok, err}
use parqdb.Text.Chars.{member, format}
use parqdb.Publish.{
  Object, S3Writer, set, key_of, is_fault, ensure_empty, write, write_all, cleaned, unique_from,
  ensure_unique_paths, publish_objects,
}
use parqdb.Publish.Rollback.{Result-cases, refused}

format_injective : (prefix p q : String) → key_of prefix p ≡ key_of prefix q → p ≡ q
unfolding format
format_injective prefix p q h =
    TextLemmas.append_cancel_right p q ""
      (TextLemmas.append_cancel_left "/" _ _ (TextLemmas.append_cancel_left prefix _ _ h))

differs : false ≡ true → ⊥
differs h = cc

key_of-ne : (prefix p q : String) → (p == q) ≡ false → (key_of prefix p == key_of prefix q) ≡ false
key_of-ne prefix p q h = elim (Bool-cases (key_of prefix p == key_of prefix q)) [
  | inr e ↦ e
  | inl e ↦
      let same = format_injective prefix p q ((eq_iff _ _).0 e) in
      absurd (differs (sym h ∙ (eq_iff p q).1 same))
]

write-eq_ok :
    (w : S3Writer) (item : Object)
    → (write w item).0 ≡ ok tt
    → ((write w item).1.bucket.at ≡ set (key_of w.prefix item.path) (some item.content) w.bucket.at)
      × ((write w item).1.prefix ≡ w.prefix)
unfolding write
write-eq_ok w item h = elim (Bool-cases (is_fault w.bucket.faults)) [
  | inl e ↦ absurd (refused (rw e at h))
  | inr e ↦ rw e (refl, refl)
]

write_all-step :
    (w after : S3Writer) (item : Object) (objects : List Object)
    → write_all w (item ∷ objects) ≡ (ok tt, after)
    → ((write w item).0 ≡ ok tt) × (write_all (write w item).1 objects ≡ (ok tt, after))
unfolding write_all
write_all-step w after item objects h = elim (Result-cases (write w item).0) [
  | inl e ↦ (e, rw (write_all, e) at h)
  | inr (x, e) ↦ absurd (refused (ap (λ p. p.0) (rw (write_all, e) at h)))
]

write_all-keeps :
    (w after : S3Writer) (objects : List Object) (p : String)
    → write_all w objects ≡ (ok tt, after)
    → All (λ o. (o.path == p) ≡ false) objects
    → after.bucket.at (key_of w.prefix p) ≡ w.bucket.at (key_of w.prefix p)
unfolding write_all
write_all-keeps w after [] p h other = rw (← ap (λ r. r.1) h) refl
write_all-keeps w after (item ∷ objects) p h (ne, other) =
    let (written, rest) = write_all-step w after item objects h in
    let (at, prefix) = write-eq_ok w item written in
    let kept = write_all-keeps (write w item).1 after objects p rest other in
    subst (λ q. after.bucket.at (key_of q p) ≡ (write w item).1.bucket.at (key_of q p)) prefix kept
    ∙ ap (λ f. f (key_of w.prefix p)) at
    ∙ rw (key_of-ne w.prefix item.path p ne) refl

-- Keys seen before tell their path from any path that is not seen.
abbrev IsSeenIn : String → List String → Type 0
IsSeenIn p seen = (t : String) → member t seen ≡ false → (t == p) ≡ false

unseen : (b c : Bool) → b || c ≡ false → (b ≡ false) × (c ≡ false)
unseen b c h = ground arith

eq-false : (a b : String) → (a == b) ≡ false → (b == a) ≡ false
eq-false a b h = elim (Bool-cases (b == a)) [
  | inr e ↦ e
  | inl e ↦ absurd (differs (sym h ∙ (eq_iff a b).1 (sym ((eq_iff b a).0 e))))
]

unique_from-cons :
    (seen : List String) (item : Object) (objects : List Object)
    → unique_from seen (item ∷ objects) ≡ ok tt
    → (member item.path seen ≡ false) × (unique_from (item.path ∷ seen) objects ≡ ok tt)
unfolding unique_from
unique_from-cons seen item objects h = elim (Bool-cases (member item.path seen)) [
  | inl e ↦ absurd (refused (rw e at h))
  | inr e ↦ (e, rw e at h)
]

unique_from-other :
    (p : String) (seen : List String) (objects : List Object)
    → IsSeenIn p seen
    → unique_from seen objects ≡ ok tt
    → All (λ o. (o.path == p) ≡ false) objects
unique_from-other p seen [] within h = tt
unique_from-other p seen (item ∷ objects) within h =
    let (new, rest) = unique_from-cons seen item objects h in
    (
      within item.path new,
      unique_from-other p (item.path ∷ seen) objects (λ t out. within t (unseen _ _ out).1) rest,
    )

write_all-at :
    (w after : S3Writer) (seen : List String) (objects : List Object)
    → unique_from seen objects ≡ ok tt
    → write_all w objects ≡ (ok tt, after)
    → All (λ o. after.bucket.at (key_of w.prefix o.path) ≡ some o.content) objects
write_all-at w after seen [] unique h = tt
write_all-at w after seen (item ∷ objects) unique h =
    let (_, later) = unique_from-cons seen item objects unique in
    let (written, rest) = write_all-step w after item objects h in
    let (at, prefix) = write-eq_ok w item written in
    let others =
      unique_from-other item.path (item.path ∷ seen) objects
        (λ t out. eq-false item.path t (unseen _ _ out).0) later in
    let kept = write_all-keeps (write w item).1 after objects item.path rest others in
    (
      subst
            (λ q.
              after.bucket.at (key_of q item.path)
              ≡ (write w item).1.bucket.at (key_of q item.path))
            prefix kept
          ∙ ap (λ f. f (key_of w.prefix item.path)) at
          ∙ rw (eq_refl (key_of w.prefix item.path)) refl,
      subst (λ q. All (λ o. after.bucket.at (key_of q o.path) ≡ some o.content) objects) prefix
          (write_all-at (write w item).1 after (item.path ∷ seen) objects later rest),
    )

cleaned-ok :
    (p : Result (Unit {0}) × S3Writer) (w : S3Writer) → cleaned p ≡ (ok tt, w) → p ≡ (ok tt, w)
cleaned-ok (ok tt, v) w h = h
cleaned-ok (err e, v) w h = absurd (refused (ap (λ p. p.0) h))

-- If a publication by an S3 writer ends without an exception, every object's key under the
-- writer's prefix holds exactly the content of this object.
pub publish_objects-at_ok :
    (w after : S3Writer) (objects : List Object)
    → publish_objects w objects ≡ (ok tt, after)
    → All (λ o. after.bucket.at (key_of w.prefix o.path) ≡ some o.content) objects
unfolding publish_objects ensure_unique_paths
publish_objects-at_ok w after objects h = elim (Result-cases (ensure_unique_paths objects)) [
  | inr (e, failed) ↦ absurd (refused (ap (λ p. p.0) (rw (publish_objects, failed) at h)))
  | inl unique ↦ elim (Result-cases (ensure_empty w (map (λ item. item.path) objects))) [
    | inr (e, failed) ↦ absurd (refused (ap (λ p. p.0) (rw (publish_objects, unique, failed) at h)))
    | inl empty ↦
        write_all-at w after [] objects unique
          (cleaned-ok (write_all w objects) after (rw (publish_objects, unique, empty) at h))
  ]
]
