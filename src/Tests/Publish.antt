-- ===== src/Tests/Publish.antt =====
-- A publication whose second write fails.
use parqdb.Prelude.{All, ℕ, String, true, false, List, [], ◌∷◌, Option, some, none, ◌≡◌, refl, ◌↔◌}
use parqdb.Python.Exceptions.{ok, err, os_error}
use parqdb.Publish.{
  not_found, Object, S3Writer, unique_from, ensure_unique_paths, ensure_empty, write, write_all,
  publish_objects, key_of,
}
use parqdb.Python.Int.{pos}
use parqdb.Python.Value.{Value, Fields, of_strings, of_entries, obj, int, str, arr, cons, nil}
use parqdb.Publish.Local.{
  LocalWriter, make_root, copy, copy_all, publish_local, publish_local-directory_err,
}
use parqdb.Publish.Source.{
  ParquetFile, SourceFile, validate_batch, validate_batches, validate_source_key, source_descriptor,
  equals_nat, are_uniform,
}
use parqdb.Publish.Source.Dense.{concat, numbers, validate_source_key-ok_iff}
use parqdb.Publish.Source.Described.{IsAccepted, source_descriptor-IsAccepted}
use parqdb.Publish.Completion.{publish_objects-at_ok}
use parqdb.Publish.Rollback.{publish_objects-at_err}

abbrev nothing_held : String → Option (List ℕ)
nothing_held key = none

abbrev new_writer : S3Writer
new_writer = record {
  prefix = "lake/index";
  written = [];
  bucket = record {
    at = nothing_held;
    info = λ key. ok not_found;
    faults = false ∷ true ∷ [];
    partial = some (1 ∷ []);
  };
}

abbrev two_objects : List Object
two_objects =
    record { path = "postings.parquet"; content = 1 ∷ 2 ∷ [] }
    ∷ record { path = "manifest.json"; content = 3 ∷ [] }
    ∷ []

second_write_fails : publish_objects new_writer two_objects ≡ (
  err (record { kind = os_error; message = "write failed" }),
  (publish_objects new_writer two_objects).1,
)
unfolding publish_objects ensure_unique_paths unique_from ensure_empty write_all write
second_write_fails = refl

publish_objects-at_err_example :
    (publish_objects new_writer two_objects).1.bucket.at "lake/index/postings.parquet" ≡ none
publish_objects-at_err_example =
    publish_objects-at_err new_writer (publish_objects new_writer two_objects).1 two_objects
      (record { kind = os_error; message = "write failed" }) "lake/index/postings.parquet" refl
      second_write_fails

abbrev calm_writer : S3Writer
calm_writer = record {
  prefix = "lake/index";
  written = [];
  bucket = record { at = nothing_held; info = λ key. ok not_found; faults = []; partial = none };
}

both_written :
    publish_objects calm_writer two_objects ≡ (ok tt, (publish_objects calm_writer two_objects).1)
unfolding publish_objects ensure_unique_paths unique_from ensure_empty write_all write
both_written = refl

publish_objects-at_ok_example :
    All
      (λ o.
        (publish_objects calm_writer two_objects).1.bucket.at (key_of "lake/index" o.path)
        ≡ some o.content)
      two_objects
publish_objects-at_ok_example =
    publish_objects-at_ok calm_writer (publish_objects calm_writer two_objects).1 two_objects
      both_written

abbrev new_local : LocalWriter
new_local = record {
  root = "/lake/index";
  created = false;
  directory = none;
  faults = false ∷ true ∷ [];
  partial = some (1 ∷ []);
  rmtree = λ files. none;
}

second_copy_fails : publish_local new_local two_objects ≡ (
  err (record { kind = os_error; message = "write failed" }),
  (publish_local new_local two_objects).1,
)
unfolding publish_local ensure_unique_paths unique_from make_root copy_all copy
second_copy_fails = refl

publish_local-directory_err_example : (publish_local new_local two_objects).1.directory ≡ none
publish_local-directory_err_example =
    publish_local-directory_err new_local (publish_local new_local two_objects).1 two_objects
      (record { kind = os_error; message = "write failed" }) (λ files. refl) second_copy_fails

-- Three rows in two batches.
abbrev three_rows : ParquetFile
three_rows = record {
  names = "id" ∷ "v" ∷ [];
  column = λ name. some (record { is_int64 = true; nullable = false });
  rows = 3;
  first_group = 2;
  other_groups = 1 ∷ [];
  batches = λ name. (pos 0 ∷ pos 1 ∷ []) ∷ (pos 2 ∷ []) ∷ [];
}

validate_source_key-ok_iff_example :
    (validate_source_key three_rows "id" ≡ ok 3) ↔ (concat (three_rows.batches "id") ≡ numbers 0 3)
validate_source_key-ok_iff_example = validate_source_key-ok_iff three_rows "id" 3

three_rows_pass : validate_source_key three_rows "id" ≡ ok 3
unfolding validate_source_key validate_batches validate_batch
three_rows_pass = refl

abbrev index_manifest : Fields
index_manifest = of_entries (
    (
      "index",
      obj (
          of_entries (
            ("ntotal", int (pos 3))
            ∷ (
              "source-key-fields",
              arr (cons (obj (of_entries (("name", str "id") ∷ ("type", str "long") ∷ []))) nil),
            )
            ∷ [])),
    )
    ∷ [])

abbrev rows_file : SourceFile
rows_file = record { name = "rows.parquet"; size = 90; sha256 = "ab"; parquet = ok three_rows }

abbrev description : Value
description = obj (
    of_entries (
      ("rows", int (pos 3))
      ∷ ("row-group-rows", int (pos 2))
      ∷ ("key", obj (of_entries (("name", str "id") ∷ ("type", str "long") ∷ [])))
      ∷ ("columns", of_strings ("id" ∷ "v" ∷ []))
      ∷ (
        "files",
        arr (
            cons
              (obj (
                of_entries (
                  ("path", str "rows.parquet")
                  ∷ ("size", int (pos 90))
                  ∷ ("sha256", str "ab")
                  ∷ ("row-begin", int (pos 0))
                  ∷ ("row-end", int (pos 3))
                  ∷ [])))
              nil),
      )
      ∷ []))

rows_described :
    source_descriptor (some rows_file) "rows.parquet" "id" index_manifest ≡ ok description
unfolding source_descriptor validate_source_key validate_batches validate_batch equals_nat
    are_uniform
rows_described = refl

source_descriptor-IsAccepted_example :
    (parquet : ParquetFile) × (descriptor : Fields) × (rows_file.parquet ≡ ok parquet)
    × (description ≡ obj descriptor)
    × IsAccepted parquet "id" index_manifest descriptor
source_descriptor-IsAccepted_example =
    source_descriptor-IsAccepted rows_file "rows.parquet" "id" index_manifest description
      rows_described
