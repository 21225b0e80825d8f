-- ===== src/Publish/Local.antt =====
-- publish.py: the writer that a destination asks for, and the local writer with its rollback. A
-- directory is a function from relative paths to contents, `none` where there is no directory; the
-- faults lie ahead of the writer.
use parqdb.Prelude.{
  ℕ, String, Bool, true, false, not, ◌&&◌, ◌||◌, ◌==◌, List, [], ◌∷◌, Option, some, none, ◌≡◌, refl,
  sym, ap, ◌∙◌, Option-cases, inl, inr, ◌⊎◌, if_both, if◌then◌else◌,
}
use parqdb.Python.Exceptions.{
  Result, Exception, ok, err, raise, require, value_error, file_exists_error, os_error, ◌>>=◌, ◌>>◌,
}
use parqdb.Text.Chars.{is_empty, format}
use parqdb.Text.Trim.{rstrip, lstrip}
use parqdb.Text.Url.{SplitResult, urlsplit}
use parqdb.Publish.{Object, set, ensure_unique_paths}
use parqdb.Publish.Rollback.{Result-cases}

-- _LocalWriter, over its directory; `rmtree` is what rmtree(ignore_errors=True) leaves of one.
pub record LocalWriter : Type 0 where
  pub root : String
  pub created : Bool
  pub directory : Option (String → Option (List ℕ))
  pub faults : List Bool
  pub partial : Option (List ℕ)
  pub rmtree : (String → Option (List ℕ)) → Option (String → Option (List ℕ))

-- What is made of a destination: an S3 writer with its prefix and its endpoint's scheme and
-- authority, or a local writer with its root.
pub data Destination : Type 0 where
  s3 : String → Option (String × String) → Destination
  local : String → Destination

module _ (check_netloc : String → Result (Unit {0})) (resolve : String → String) where
  s3_endpoint : Option String → Result (Option (String × String))
  s3_endpoint none = ok none
  s3_endpoint (some url) = do
    endpoint ← urlsplit check_netloc url
    require
        ((endpoint.scheme == "http" || endpoint.scheme == "https")
          && not (is_empty endpoint.netloc))
        value_error "--s3-endpoint must be an HTTP(S) URL"
    ok (some (endpoint.scheme, endpoint.netloc))

  s3_destination : SplitResult → Option String → Result Destination
  unfolding s3_endpoint
  s3_destination parsed endpoint = do
    require (not (is_empty parsed.netloc || is_empty (rstrip "/" (lstrip "/" parsed.path))))
        value_error "S3 destination must include a bucket and immutable prefix"
    override ← s3_endpoint endpoint
    ok (s3 (format (parsed.netloc ∷ "/" ∷ rstrip "/" (lstrip "/" parsed.path) ∷ [])) override)

  destination_of : String → Option String → SplitResult → Result Destination
  unfolding s3_destination
  destination_of destination endpoint parsed =
      if parsed.scheme == "s3"
      then s3_destination parsed endpoint
      else if parsed.scheme == "file"
      then ok (local (resolve parsed.path))
      else if not (is_empty parsed.scheme)
      then raise value_error "destination must be a local path, file URI, or s3:// URI"
      else ok (local (resolve destination))

  -- _writer
  unfoldable pub writer : String → Option String → Result Destination
  unfolding destination_of
  writer destination endpoint = do
    parsed ← urlsplit check_netloc destination
    destination_of destination endpoint parsed

abbrev already_exists : LocalWriter → Exception
already_exists w = record {
  kind = file_exists_error;
  message = format ("destination already exists: " ∷ w.root ∷ []);
}

-- _LocalWriter.ensure_empty, which makes the directory
unfoldable pub make_root : LocalWriter → Result (Unit {0}) × LocalWriter
make_root w = elim w.directory [
  | some files ↦ (err (already_exists w), w)
  | none ↦ (ok tt, record w { created = true; directory = some (λ path. none) })
]

abbrev first_fault : List Bool → Bool
first_fault [] = false
first_fault (fault ∷ faults) = fault

abbrev later_faults : List Bool → List Bool
later_faults [] = []
later_faults (fault ∷ faults) = faults

-- The files of the directory, which mkdir(parents=True) would make.
abbrev files_of : Option (String → Option (List ℕ)) → String → Option (List ℕ)
files_of none path = none
files_of (some files) path = files path

-- _LocalWriter.write; a fault leaves `partial` at the path.
unfoldable pub copy : LocalWriter → Object → Result (Unit {0}) × LocalWriter
copy w item =
    if first_fault w.faults
    then (
      raise os_error "write failed",
      record w {
        directory = some (set item.path w.partial (files_of w.directory));
        faults = later_faults w.faults;
      },
    )
    else (
      ok tt,
      record w {
        directory = some (set item.path (some item.content) (files_of w.directory));
        faults = later_faults w.faults;
      },
    )

-- What the removal of a directory leaves.
abbrev pub removed : LocalWriter → Option (String → Option (List ℕ))
removed w = elim w.directory [ none ↦ none | some files ↦ w.rmtree files ]

-- _LocalWriter.cleanup_after_failure
unfoldable pub remove_created : LocalWriter → LocalWriter
remove_created w = if w.created then record w { directory = removed w } else w

-- The loop of writes; it ends at the first exception.
unfoldable pub copy_all : LocalWriter → List Object → Result (Unit {0}) × LocalWriter
copy_all w [] = (ok tt, w)
copy_all w (item ∷ objects) = elim (copy w item).0 [
  | err e ↦ (err e, (copy w item).1)
  | ok _ ↦ copy_all (copy w item).1 objects
]

abbrev undone : Result (Unit {0}) × LocalWriter → Result (Unit {0}) × LocalWriter
undone (ok _, w) = (ok tt, w)
undone (err e, w) = (err e, remove_created w)

-- What `publish` does with its objects and a local writer.
unfoldable pub publish_local : LocalWriter → List Object → Result (Unit {0}) × LocalWriter
publish_local w objects = elim (ensure_unique_paths objects) [
  | err e ↦ (err e, w)
  | ok _ ↦ elim (make_root w).0 [
    | err e ↦ (err e, (make_root w).1)
    | ok _ ↦ undone (copy_all (make_root w).1 objects)
  ]
]

-- What no write changes.
abbrev Same : LocalWriter → LocalWriter → Type 0
Same w v = (v.created ≡ w.created) × (v.rmtree ≡ w.rmtree)

copy-Same : (w : LocalWriter) (item : Object) → Same w (copy w item).1
unfolding copy
copy-Same w item =
    if_both (λ (p : Result (Unit {0}) × LocalWriter). Same w p.1) (first_fault w.faults)
      (λ _. (refl, refl)) (λ _. (refl, refl))

copy_all-Same : (w : LocalWriter) (objects : List Object) → Same w (copy_all w objects).1
unfolding copy_all
copy_all-Same w [] = (refl, refl)
copy_all-Same w (item ∷ objects) =
    let (c, r) = copy-Same w item in
    elim (Result-cases (copy w item).0) [
      | inl e ↦
          let (d, q) = copy_all-Same (copy w item).1 objects in rw (copy_all, e) (d ∙ c, q ∙ r)
      | inr (x, e) ↦ rw (copy_all, e) (c, r)
    ]

-- That the removal of a directory succeeds.
abbrev pub Removes : LocalWriter → Type 0
Removes w = (files : String → Option (List ℕ)) → w.rmtree files ≡ none

removed-none : (w : LocalWriter) → Removes w → removed w ≡ none
removed-none w removes = elim (Option-cases w.directory) [
  | inl absent ↦ simp (removed, absent) refl
  | inr (files, there) ↦ simp (removed, there, removes files) refl
]

undone-directory :
    (p : Result (Unit {0}) × LocalWriter) (e : Exception) (after : LocalWriter)
    → p.1.created ≡ true
    → Removes p.1
    → undone p ≡ (err e, after)
    → after.directory ≡ none
unfolding remove_created
undone-directory (ok done, w) e after made removes h = cc
undone-directory (err x, w) e after made removes h =
    rw (← ap (λ p. p.1) h) (rw (remove_created, made) (removed-none w removes))

-- What make_root leaves, by whether there is a directory.
made_root :
    (w : LocalWriter)
    → (make_root w ≡ (err (already_exists w), w))
      ⊎ ((w.directory ≡ none)
          × ((make_root w).0 ≡ ok tt)
          × ((make_root w).1.created ≡ true)
          × ((make_root w).1.rmtree ≡ w.rmtree))
unfolding make_root
made_root w = elim (Option-cases w.directory) [
  | inl absent ↦ inr (
    absent,
    rw (make_root, absent) refl,
    rw (make_root, absent) refl,
    rw (make_root, absent) refl,
  )
  | inr (files, there) ↦ inl (simp (make_root, there) refl)
]

-- If a publication to a local directory ends in an exception, whatever the write it fails at
-- and whatever that write leaves, and rmtree, of which the writer ignores the errors, removes
-- what it is given, the destination is what it was: the files that were there, or nothing.
pub publish_local-directory_err :
    (w after : LocalWriter) (objects : List Object) (e : Exception)
    → Removes w
    → publish_local w objects ≡ (err e, after)
    → after.directory ≡ w.directory
unfolding publish_local
publish_local-directory_err w after objects e removes h =
    elim (Result-cases (ensure_unique_paths objects)) [
      | inr (f, failed) ↦ rw (← ap (λ p. p.1) (rw (publish_local, failed) at h)) refl
      | inl unique ↦ elim (made_root w) [
        | inl there ↦
            let failed = ap (λ p. p.0) there in
            ap (λ p. p.1.directory) (sym (rw (publish_local, unique, failed) at h))
            ∙ ap (λ p. p.1.directory) there
        | inr (absent, made, created, same) ↦
            let (c, r) = copy_all-Same (make_root w).1 objects in
            undone-directory (copy_all (make_root w).1 objects) e after (c ∙ created)
              (λ files. rw (r ∙ same) (removes files)) (rw (publish_local, unique, made) at h)
            ∙ sym absent
      ]
    ]
