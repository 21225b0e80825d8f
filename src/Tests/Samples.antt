-- ===== src/Tests/Samples.antt =====
-- Concrete inputs.
use parqdb.Prelude.{false, [], ◌∷◌, some, none, refl}
use parqdb.Python.Int.{pos}
use parqdb.Python.Float.{Float}
use parqdb.Identifier.{TableIdentifier, IsValid}
use parqdb.Config.Compression.{is_supported}
use parqdb.Config.{Ivf, WriteOptions}
use parqdb.Config.Laws.{IsIvf, IsWriteOptions}
use parqdb.Query.{VectorQuery}
use parqdb.Status.{IndexStatus, IndexInfo}

abbrev pub places : TableIdentifier
places = record { catalog = "lake"; namespace = "geo" ∷ []; name = "places 1" }

pub places-IsValid : IsValid places
places-IsValid = record { catalog = refl; namespace = (refl, tt); name = refl }

-- 1.0
abbrev pub one_float : Float
one_float = record { negative = false; exponent = 1023; fraction = 0 }

abbrev pub near : VectorQuery
near = record {
  source = places;
  query = one_float ∷ [];
  column = some "embedding";
  index = none;
  projection = some ("id" ∷ []);
  result_limit = pos 10;
  probe_count = some (pos 4);
  predicate = none;
  bypass_index = false;
}

abbrev pub small_ivf : Ivf
small_ivf = record { nlist = pos 16; encoding = "lvq8"; metric = "cosine" }

pub small_ivf-IsIvf : IsIvf small_ivf
small_ivf-IsIvf = record { nlist = refl; encoding = refl; metric = refl }

abbrev pub options : WriteOptions
options = record {
  partitions = some (pos 2);
  compression = "snappy";
  target_file_size = pos 1048576;
  max_row_group_rows = none;
  write_batch_rows = pos 8192;
}

pub options-IsWriteOptions : IsWriteOptions options
unfolding is_supported
options-IsWriteOptions = record {
  partitions = refl;
  compression = refl;
  target_file_size = refl;
  max_row_group_rows = tt;
  write_batch_rows = refl;
}

abbrev pub building : IndexStatus
building = record {
  state = "building";
  progress = some one_float;
  phase = some "training";
  completed = some (pos 3);
  total = some (pos 4);
  current_snapshot_id = none;
  error = none;
  error_code = none;
}

abbrev pub info : IndexInfo
info = record {
  name = "by_embedding";
  column = "embedding";
  family = "ivf";
  metric = "cosine";
  parameters = ("nlist", "16") ∷ [];
  current_snapshot_id = pos 7;
}
