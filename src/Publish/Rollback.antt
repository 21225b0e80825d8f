-- ===== src/Publish/Rollback.antt =====
-- A publication to S3 that fails leaves the bucket as it was.
use parqdb.Prelude.{
  ℕ, String, Bool, true, false, ◌||◌, ◌==◌, eq_iff, List, [], ◌∷◌, ◌++◌, map, All, Option, some,
  none, ◌≡◌, refl, sym, ap, ◌∙◌, arith, Bool-cases, inl, inr, ◌⊎◌, subst, if◌then◌else◌,
}
use parqdb.Python.Exceptions.{Result, ok, err, Exception, require, require-eq_ok, >>=-eq-ok}
use parqdb.Text.Chars.{member}
use parqdb.Publish.{
  Object, Bucket, S3Writer, set, key_of, FileType, file, file_type, is_not_found, is_fault,
  ensure_empty, write, delete_reversed, cleanup_after_failure, write_all, cleaned,
  ensure_unique_paths, publish_objects,
}

-- What a bucket's keys hold once the listed ones are deleted.
abbrev hidden : List String → (String → Option (List ℕ)) → String → Option (List ℕ)
hidden keys at key = if member key keys then none else at key

delete_reversed-at :
    (keys : List String) (b : Bucket) (key : String)
    → (delete_reversed keys b).at key ≡ hidden keys b.at key
unfolding delete_reversed
delete_reversed-at [] b key = refl
delete_reversed-at (k ∷ keys) b key = elim (Bool-cases (k == key)) [
  | inl e ↦ rw e refl
  | inr e ↦ rw (e, delete_reversed-at keys b key) refl
]

member-append :
    (key k : String) (keys : List String)
    → member key (keys ++ k ∷ []) ≡ (member key keys || (k == key))
member-append key k [] = ground arith
member-append key k (j ∷ keys) = rw (member-append key k keys) (ground arith)

or_true : (b : Bool) → b || true ≡ true
or_true true = refl
or_true false = refl

or_false : (b : Bool) → b || false ≡ b
or_false true = refl
or_false false = refl

both_none : (b : Bool) → if◌then◌else◌ {A = Option (List ℕ)} b none none ≡ none
both_none true = refl
both_none false = refl

-- No object is where get_file_info finds nothing.
file_type-not_found :
    (b : Bucket) (key : String) (type : FileType)
    → file_type b key ≡ ok type
    → is_not_found type ≡ true
    → b.at key ≡ none
file_type-not_found b key type h n = by_content (b.at key) h
  where
    by_content :
        (content : Option (List ℕ))
        → elim content as (λ _. Result FileType) [ some c ↦ ok file | none ↦ b.info key ] ≡ ok type
        → content ≡ none
    by_content none e = refl
    by_content (some c) e = ground arith

pub refused : {A : Type 0} {e : Exception} {a : A} → err e ≡ ok a → ⊥
refused h = cc

-- Nothing is at the keys of these objects.
abbrev pub Absent : (String → Option (List ℕ)) → String → List String → Type 0
Absent at prefix paths = All (λ path. at (key_of prefix path) ≡ none) paths

ensure_empty-Absent :
    (w : S3Writer) (paths : List String)
    → ensure_empty w paths ≡ ok tt
    → Absent w.bucket.at w.prefix paths
unfolding ensure_empty
ensure_empty-Absent w [] h = tt
ensure_empty-Absent w (path ∷ paths) h =
    let (type, known, rest) = >>=-eq-ok (file_type w.bucket (key_of w.prefix path)) _ h in
    let (_, absent, later) = >>=-eq-ok (require (is_not_found type) _ _) _ rest in
    (
      file_type-not_found w.bucket (key_of w.prefix path) type known (require-eq_ok _ _ _ absent),
      ensure_empty-Absent w paths later,
    )

pub Result-cases : (r : Result (Unit {0})) → (r ≡ ok tt) ⊎ ((e : Exception) × (r ≡ err e))
Result-cases (ok tt) = inl refl
Result-cases (err e) = inr (e, refl)

module _ (before : String → Option (List ℕ)) where
  hidden-put :
      (keys : List String) (k : String) (content : Option (List ℕ)) (at : String → Option (List ℕ))
      (key : String)
      → before k ≡ none
      → hidden keys at key ≡ before key
      → hidden (keys ++ k ∷ []) (set k content at) key ≡ before key
  hidden-put keys k content at key absent h = elim (Bool-cases (k == key)) [
    | inl e ↦
        rw (member-append key k keys, e, or_true (member key keys))
          (sym (sym (ap before ((eq_iff k key).0 e)) ∙ absent))
    | inr e ↦ rw (member-append key k keys, e, or_false (member key keys)) h
  ]

  hidden-undone :
      (keys : List String) (k : String) (partial : Option (List ℕ)) (at : String → Option (List ℕ))
      (key : String)
      → before k ≡ none
      → hidden keys at key ≡ before key
      → hidden keys (set k none (set k partial at)) key ≡ before key
  hidden-undone keys k partial at key absent h = elim (Bool-cases (k == key)) [
    | inl e ↦
        rw (e, both_none (member key keys)) (sym (sym (ap before ((eq_iff k key).0 e)) ∙ absent))
    | inr e ↦ rw e h
  ]

  -- That the rollback would restore the bucket.
  abbrev IsUndoable : S3Writer → Type 0
  IsUndoable w = (key : String) → hidden w.written w.bucket.at key ≡ before key

  write-IsUndoable :
      (w : S3Writer) (item : Object)
      → before (key_of w.prefix item.path) ≡ none
      → IsUndoable w
      → IsUndoable (write w item).1
  unfolding write
  write-IsUndoable w item absent h key = elim (Bool-cases (is_fault w.bucket.faults)) [
    | inl e ↦ rw e (hidden-undone w.written _ w.bucket.partial w.bucket.at key absent (h key))
    | inr e ↦ rw e (hidden-put w.written _ (some item.content) w.bucket.at key absent (h key))
  ]

  write-prefix : (w : S3Writer) (item : Object) → (write w item).1.prefix ≡ w.prefix
  unfolding write
  write-prefix w item = elim (Bool-cases (is_fault w.bucket.faults)) [
    | inl e ↦ rw e refl
    | inr e ↦ rw e refl
  ]

  -- Whether the loop ends here or goes on.
  after-IsUndoable :
      (r : Result (Unit {0})) (w : S3Writer) (objects : List Object)
      → IsUndoable w
      → IsUndoable (write_all w objects).1
      → IsUndoable
          (elim r as (λ x. Result (Unit {0}) × S3Writer) [
            | err e ↦ (err e, w)
            | ok _ ↦ write_all w objects
          ]).1
  after-IsUndoable (ok done) w objects stopped continued = continued
  after-IsUndoable (err e) w objects stopped continued = stopped

  write_all-IsUndoable :
      (w : S3Writer) (objects : List Object)
      → Absent before w.prefix (map (λ item. item.path) objects)
      → IsUndoable w
      → IsUndoable (write_all w objects).1
  unfolding write_all
  write_all-IsUndoable w [] absent h = h
  write_all-IsUndoable w (item ∷ objects) (absent, rest) h =
      let next = write-IsUndoable w item absent h in
      after-IsUndoable (write w item).0 (write w item).1 objects next (
        write_all-IsUndoable (write w item).1 objects
          (subst (λ prefix. Absent before prefix (map (λ item. item.path) objects))
            (sym (write-prefix w item)) rest)
          next)

-- What follows a failed loop, if the loop can be undone.
cleaned-at :
    (before : String → Option (List ℕ)) (p : Result (Unit {0}) × S3Writer) (e : Exception)
    (w : S3Writer) (key : String)
    → IsUndoable before p.1
    → cleaned p ≡ (err e, w)
    → w.bucket.at key ≡ before key
unfolding cleanup_after_failure
cleaned-at before (ok done, v) e w key h same = absurd (refused (sym (ap (λ p. p.0) same)))
cleaned-at before (err f, v) e w key h same =
    rw (← ap (λ p. p.1) same) (delete_reversed-at v.written v.bucket key ∙ h key)

-- If a publication by an S3 writer that has written nothing ends in an exception, whatever the
-- write it fails at and whatever that write leaves at its key, every key of the bucket holds
-- what it held before, the deletes of the rollback being such that they succeed.
pub publish_objects-at_err :
    (w after : S3Writer) (objects : List Object) (e : Exception) (key : String)
    → w.written ≡ []
    → publish_objects w objects ≡ (err e, after)
    → after.bucket.at key ≡ w.bucket.at key
unfolding publish_objects
publish_objects-at_err w after objects e key new h =
    elim (Result-cases (ensure_unique_paths objects)) [
      | inr (f, failed) ↦ rw (← ap (λ p. p.1) (rw (publish_objects, failed) at h)) refl
      | inl unique ↦ elim (Result-cases (ensure_empty w (map (λ item. item.path) objects))) [
        | inr (f, failed) ↦ rw (← ap (λ p. p.1) (rw (publish_objects, unique, failed) at h)) refl
        | inl empty ↦
            cleaned-at w.bucket.at (write_all w objects) e after key
              (write_all-IsUndoable w.bucket.at w objects (ensure_empty-Absent w _ empty)
                (λ k. rw new refl))
              (rw (publish_objects, unique, empty) at h)
      ]
    ]
