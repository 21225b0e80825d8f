-- ===== src/Publish.antt =====
-- publish.py: which paths a publication has, the order of its writes, and the S3 writer with its
-- rollback. A bucket is a function from keys to contents, with the faults that lie ahead of it.
pub mod Rollback
pub mod Building
pub mod Completion
pub mod Local
pub mod Source
use Prim.Native.String
use parqdb.Prelude.{
  ℕ, suc, String, Bool, true, false, not, ◌&&◌, ◌||◌, ◌==◌, List, [], ◌∷◌, ◌++◌, map, any, Option,
  some, none, if◌then◌else◌,
}
use parqdb.Python.Exceptions.{
  Result, ok, err, raise, require, value_error, file_exists_error, os_error, Exception, ◌>>=◌, ◌>>◌,
  map_result,
}
use parqdb.Python.Int.{ℤ, pos}
use parqdb.Python.Value.{Value, Fields, null, str, arr, obj, items, get}
use parqdb.Text.Chars.{is_empty, format, member}
use parqdb.Text.Split.{split, join}
use parqdb.Text.Trim.{rstrip, starts_with}
use parqdb.Text.Decimal.{of_nat}

-- _Object, with the bytes that are copied from its source or given.
pub record Object : Type 0 where
  pub path : String
  pub content : List ℕ

-- PurePosixPath(value).parts and str(PurePosixPath(value)), for a value that is not absolute.
abbrev pub posix_parts : List String → List String
posix_parts [] = []
posix_parts (part ∷ parts) =
    if is_empty part || part == "." then posix_parts parts else part ∷ posix_parts parts

abbrev text_of_parts : List String → String
text_of_parts [] = "."
text_of_parts (part ∷ parts) = join "/" (part ∷ parts)

-- The exception's text has the path as it is, without repr's quoting.
unfoldable pub safe_relative_path : String → Result String
safe_relative_path value =
    let parts = posix_parts (split "/" value) in
    if is_empty value
      || starts_with "/" value
      || member ".." parts
      || not (text_of_parts parts == value)
    then raise value_error (format ("unsafe publication path: " ∷ value ∷ []))
    else ok value

descriptor_path : Value → Result String
unfolding safe_relative_path
descriptor_path (obj descriptor) = elim (get descriptor "path") [
  | str path ↦ safe_relative_path path
  | _ ↦ raise value_error "index object descriptor is missing a path"
]
descriptor_path _ = raise value_error "index object descriptor is missing a path"

posting_files : Fields → Result (List Value)
posting_files postings = elim (get postings "files") [
  | arr files ↦ ok (items files)
  | _ ↦ raise value_error "index manifest postings.files must be an array"
]

both_objects : Value → Value → Result (Fields × Fields)
both_objects (obj hierarchy) (obj postings) = ok (hierarchy, postings)
both_objects _ _ = raise value_error "index manifest is missing hierarchy or postings"

unfoldable pub referenced_index_paths : Fields → Result (List String)
unfolding descriptor_path posting_files both_objects
referenced_index_paths manifest = do
  parts ← both_objects (get manifest "hierarchy") (get manifest "postings")
  files ← posting_files parts.1
  map_result descriptor_path (get parts.0 "centroids" ∷ files)

unfoldable pub unique_from : List String → List Object → Result (Unit {0})
unique_from seen [] = ok tt
unique_from seen (item ∷ objects) =
    let rest = unique_from (item.path ∷ seen) objects in
    if member item.path seen
    then raise value_error (format ("duplicate publication path: " ∷ item.path ∷ []))
    else rest

unfoldable pub ensure_unique_paths : List Object → Result (Unit {0})
ensure_unique_paths objects = unique_from [] objects

-- pyarrow.fs.FileType
pub data FileType : Type 0 where
  not_found file directory : FileType

-- A bucket. A fault ahead makes a write fail after it has left what `partial` says at its key; `info`
-- is what get_file_info gives or raises for a key without an object.
pub record Bucket : Type 0 where
  pub at : String → Option (List ℕ)
  pub info : String → Result FileType
  pub faults : List Bool
  pub partial : Option (List ℕ)

abbrev pub set : String → Option (List ℕ) → (String → Option (List ℕ)) → String → Option (List ℕ)
set key content at other = if key == other then content else at other

abbrev pub delete_file : String → Bucket → Bucket
delete_file key b = record b { at = set key none b.at }

abbrev is_fault : List Bool → Bool
is_fault [] = false
is_fault (fault ∷ faults) = fault

abbrev later : List Bool → List Bool
later [] = []
later (fault ∷ faults) = faults

-- open_output_stream and what is written to it
abbrev pub put : String → List ℕ → Bucket → Bool × Bucket
put key content b =
    if is_fault b.faults
    then (false, record b { at = set key b.partial b.at; faults = later b.faults })
    else (true, record b { at = set key (some content) b.at; faults = later b.faults })

-- _S3Writer, over its bucket
pub record S3Writer : Type 0 where
  pub prefix : String
  pub written : List String
  pub bucket : Bucket

unfoldable pub s3_writer : Bucket → String → S3Writer
s3_writer bucket prefix = record { prefix = rstrip "/" prefix; written = []; bucket = bucket }

abbrev pub key_of : String → String → String
key_of prefix relative = format (prefix ∷ "/" ∷ relative ∷ [])

-- get_file_info(key).type
abbrev pub file_type : Bucket → String → Result FileType
file_type b key = elim (b.at key) [ some content ↦ ok file | none ↦ b.info key ]

abbrev pub is_not_found : FileType → Bool
is_not_found not_found = true
is_not_found _ = false

unfoldable pub ensure_empty : S3Writer → List String → Result (Unit {0})
ensure_empty w [] = ok tt
ensure_empty w (relative ∷ paths) = do
  type ← file_type w.bucket (key_of w.prefix relative)
  require (is_not_found type) file_exists_error
      (format ("destination object already exists: " ∷ relative ∷ []))
  ensure_empty w paths

unfoldable pub write : S3Writer → Object → Result (Unit {0}) × S3Writer
write w item =
    let key = key_of w.prefix item.path in
    let (done, b) = put key item.content w.bucket in
    if done
    then (ok tt, record { prefix = w.prefix; written = w.written ++ key ∷ []; bucket = b })
    else (raise os_error "write failed", record w { bucket = delete_file key b })

-- The keys of `written` are deleted from the last one to the first; the deletes succeed.
unfoldable pub delete_reversed : List String → Bucket → Bucket
delete_reversed [] b = b
delete_reversed (key ∷ keys) b = delete_file key (delete_reversed keys b)

unfoldable pub cleanup_after_failure : S3Writer → S3Writer
cleanup_after_failure w = record w { bucket = delete_reversed w.written w.bucket }

-- The loop of writes; it ends at the first exception.
unfoldable pub write_all : S3Writer → List Object → Result (Unit {0}) × S3Writer
write_all w [] = (ok tt, w)
write_all w (item ∷ objects) = elim (write w item).0 [
  | err e ↦ (err e, (write w item).1)
  | ok _ ↦ write_all (write w item).1 objects
]

abbrev cleaned : Result (Unit {0}) × S3Writer → Result (Unit {0}) × S3Writer
cleaned (ok _, w) = (ok tt, w)
cleaned (err e, w) = (err e, cleanup_after_failure w)

-- What `publish` does with its objects and a writer.
unfoldable pub publish_objects : S3Writer → List Object → Result (Unit {0}) × S3Writer
publish_objects w objects = elim (ensure_unique_paths objects) [
  | err e ↦ (err e, w)
  | ok _ ↦ elim (ensure_empty w (map (λ item. item.path) objects)) [
    | err e ↦ (err e, w)
    | ok _ ↦ cleaned (write_all w objects)
  ]
]
