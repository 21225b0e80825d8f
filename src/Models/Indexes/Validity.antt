-- ===== src/Models/Indexes/Validity.antt =====
-- The settings that a body gives are valid.
use parqdb.Prelude.{IfSome, Option, ◌≡◌}
use parqdb.Python.Exceptions.{ok, >>=-eq-ok, ok_injective, require, value_error}
use parqdb.Python.Value.{Value, Fields, null, int, str, obj, get, of_option}
use parqdb.Config.{Ivf, WriteOptions}
use parqdb.Config.Laws.{IsIvf, ivf-IsIvf, IsWriteOptions, write_options-IsWriteOptions}
use parqdb.Models.Checks.{
  object, reject_unknown, require_fields, string, positive_integer, optional_positive_integer,
}
use parqdb.Models.Indexes.{
  ivf_fields, is_ivf, ivf_of_body, ivf_from_json, writer_fields, writer_of_body,
  writer_options_from_json,
}

pub ivf_from_json-IsIvf : (v : Value) (c : Ivf) → ivf_from_json v ≡ ok c → IsIvf c
unfolding ivf_from_json ivf_of_body
ivf_from_json-IsIvf v c h =
    let (body, _, h₁) = >>=-eq-ok (object v _) _ h in
    let (_, _, h₂) = >>=-eq-ok (reject_unknown body ivf_fields _) _ h₁ in
    let (_, _, h₃) = >>=-eq-ok (require_fields body ivf_fields _) _ h₂ in
    let (_, _, h₄) = >>=-eq-ok (require (is_ivf (get body "type")) value_error _) _ h₃ in
    let (n, _, h₅) = >>=-eq-ok (positive_integer (get body "nlist") _) _ h₄ in
    let (e, _, h₆) = >>=-eq-ok (string (get body "encoding") _) _ h₅ in
    let (m, _, h₇) = >>=-eq-ok (string (get body "metric") _) _ h₆ in
    ivf-IsIvf (int n) (str e) (str m) c h₇

writer_of_body-IsWriteOptions :
    (body : Fields) (w : WriteOptions) → writer_of_body body ≡ ok w → IsWriteOptions w
unfolding writer_of_body
writer_of_body-IsWriteOptions body w h =
    let (_, _, h₁) = >>=-eq-ok (reject_unknown body writer_fields _) _ h in
    let (_, _, h₂) = >>=-eq-ok (require_fields body writer_fields _) _ h₁ in
    let (p, _, h₃) = >>=-eq-ok (optional_positive_integer (get body "partitions") _) _ h₂ in
    let (r, _, h₄) = >>=-eq-ok (optional_positive_integer (get body "max_row_group_rows") _) _ h₃ in
    let (c, _, h₅) = >>=-eq-ok (string (get body "compression") _) _ h₄ in
    let (t, _, h₆) = >>=-eq-ok (positive_integer (get body "target_file_size") _) _ h₅ in
    let (b, _, h₇) = >>=-eq-ok (positive_integer (get body "write_batch_rows") _) _ h₆ in
    write_options-IsWriteOptions (of_option int p) (str c) (int t) (of_option int r) (int b) w h₇

pub writer_options_from_json-IsWriteOptions :
    (v : Value) (o : Option WriteOptions)
    → writer_options_from_json v ≡ ok o
    → IfSome IsWriteOptions o
unfolding writer_options_from_json object
writer_options_from_json-IsWriteOptions null o h = rw (← ok_injective h) tt
writer_options_from_json-IsWriteOptions (obj body) o h =
    let (w, e, last) = >>=-eq-ok (writer_of_body body) _ h in
    rw (← ok_injective last) (writer_of_body-IsWriteOptions body w e)
writer_options_from_json-IsWriteOptions _ o h = cc
