-- ===== src/Tests/Messages.antt =====
-- The messages at concrete inputs.
use parqdb.Prelude.{[], ◌∷◌, none, ◌≡◌, refl}
use parqdb.Python.Exceptions.{type_error, invalid_argument_error, ok}
use parqdb.Python.Int.{pos}
use parqdb.Python.Float.{is_finite}
use parqdb.Python.Value.{int, str}
use parqdb.Text.Chars.{format}
use parqdb.Config.{ivf}
use parqdb.Models.Queries.{vector_query_to_json, vector_query_from_json}
use parqdb.Models.Queries.RoundTrip.{
  IsWellFormed, vector_query_from_json-to_json, vector_query_from_json-IsWellFormed,
}
use parqdb.Models.Statuses.{index_status_to_json, index_status_from_json}
use parqdb.Models.Statuses.RoundTrip.{IsStatus, IsInfo, index_status_from_json-to_json}
use parqdb.Errors.{classify_server_error, raise_remote_error, json}
use parqdb.Errors.Forwarding.{raise_remote-classify}
use parqdb.Models.Indexes.{ivf_from_json, ivf_to_json}
use parqdb.Models.Indexes.RoundTrip.{ivf_from_json-to_json}
use parqdb.Tests.Samples.{places-IsValid, near, small_ivf, small_ivf-IsIvf, building, info}

near-IsWellFormed : IsWellFormed near
unfolding is_finite
near-IsWellFormed = record {
  source = places-IsValid;
  some_query = λ h. cc;
  finite_query = (refl, tt);
  column = refl;
  index = tt;
  projection = (refl, tt);
  result_limit = refl;
  probe_count = refl;
  predicate = tt;
}

vector_query_from_json-to_json_example :
    vector_query_from_json (vector_query_to_json near) ≡ ok near
vector_query_from_json-to_json_example = vector_query_from_json-to_json near near-IsWellFormed

vector_query_from_json-IsWellFormed_example : IsWellFormed near
vector_query_from_json-IsWellFormed_example =
    vector_query_from_json-IsWellFormed (vector_query_to_json near) near
      (vector_query_from_json-to_json near near-IsWellFormed)

ivf_from_json-to_json_example : ivf_from_json (ivf_to_json small_ivf) ≡ ok small_ivf
ivf_from_json-to_json_example = ivf_from_json-to_json small_ivf small_ivf-IsIvf

small_ivf_made : ivf (int (pos 16)) (str "lvq8") (str "cosine") ≡ ok small_ivf
unfolding ivf
small_ivf_made = refl

building-IsStatus : IsStatus building
unfolding is_finite
building-IsStatus = record {
  state = refl;
  progress = refl;
  phase = refl;
  completed = refl;
  total = refl;
  current_snapshot_id = tt;
  error = tt;
  error_code = tt;
  both = refl;
}

index_status_from_json-to_json_example :
    index_status_from_json (index_status_to_json building) ≡ ok building
index_status_from_json-to_json_example = index_status_from_json-to_json building building-IsStatus

info-IsInfo : IsInfo info
info-IsInfo = record {
  name = refl;
  column = refl;
  family = refl;
  metric = refl;
  parameters = ((refl, refl), tt);
  current_snapshot_id = refl;
}

raise_remote-classify_example :
    raise_remote_error
      (record {
        status_code =
            (classify_server_error (record { kind = type_error; message = "no" }) "r1").status;
        x_request_id = none;
      })
      (json (classify_server_error (record { kind = type_error; message = "no" }) "r1"))
    ≡ record {
      kind = invalid_argument_error;
      message = format ("no" ∷ " (request_id=" ∷ "r1" ∷ ")" ∷ []);
    }
raise_remote-classify_example =
    raise_remote-classify (record { kind = type_error; message = "no" }) "r1" none refl
