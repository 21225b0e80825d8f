-- ===== src/Models/Indexes/RoundTrip.antt =====
-- Index configurations and writer options read back from JSON, and what accepted ones satisfy.
use parqdb.Prelude.{IfSome, String, true, false, List, Option, some, none, ◌≡◌, refl}
use parqdb.Python.Exceptions.{ok}
use parqdb.Text.Chars.{member, format, strip_prefix}
use parqdb.Config.{Ivf, ivf, WriteOptions, encodings, metrics}
use parqdb.Config.Laws.{IsIvf, IsWriteOptions, write_options_of_IsWriteOptions}
use parqdb.Config.Compression.{is_supported}
use parqdb.Models.Checks.{object, reject_unknown, require_fields}
use parqdb.Models.Checks.Laws.{
  NonEmpty, string-str, positive_integer-int, optional_positive_integer-of_option,
}
use parqdb.Models.Indexes.{
  ivf_to_json, ivf_from_json, writer_options_to_json, writer_options_from_json,
}

-- Nothing empty is a member of the lists that the checks use.
member-NonEmpty :
    (s : String) (ts : List String) → member "" ts ≡ false → member s ts ≡ true → NonEmpty s
member-NonEmpty String.[] ts h k = cc
member-NonEmpty (String.◌∷◌ c s) ts h k = refl

-- A valid IVF configuration is read back from its JSON form unchanged.
pub ivf_from_json-to_json : (c : Ivf) → IsIvf c → ivf_from_json (ivf_to_json c) ≡ ok c
unfolding ivf_from_json ivf_to_json object reject_unknown require_fields ivf
ivf_from_json-to_json c v =
    rw
      (
        positive_integer-int c.nlist "nlist" v.nlist,
        string-str c.encoding "encoding" (member-NonEmpty c.encoding encodings refl v.encoding),
        string-str c.metric "metric" (member-NonEmpty c.metric metrics refl v.metric),
        v.nlist,
        v.encoding,
        v.metric,
      )
      refl

is_supported-NonEmpty : (s : String) → is_supported s ≡ true → NonEmpty s
unfolding is_supported format strip_prefix
is_supported-NonEmpty String.[] h = cc
is_supported-NonEmpty (String.◌∷◌ c s) h = refl

-- Absent writer options and valid ones are read back from their JSON form unchanged.
pub writer_options_from_json-to_json :
    (o : Option WriteOptions)
    → IfSome IsWriteOptions o
    → writer_options_from_json (writer_options_to_json o) ≡ ok o
unfolding writer_options_from_json writer_options_to_json object reject_unknown require_fields
writer_options_from_json-to_json none h = refl
writer_options_from_json-to_json (some w) v =
    rw
      (
        optional_positive_integer-of_option w.partitions "partitions" v.partitions,
        optional_positive_integer-of_option w.max_row_group_rows "max_row_group_rows"
            v.max_row_group_rows,
        string-str w.compression "compression" (is_supported-NonEmpty w.compression v.compression),
        positive_integer-int w.target_file_size "target_file_size" v.target_file_size,
        positive_integer-int w.write_batch_rows "write_batch_rows" v.write_batch_rows,
        write_options_of_IsWriteOptions w v,
      )
      refl
