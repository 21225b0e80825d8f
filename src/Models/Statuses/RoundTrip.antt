-- ===== src/Models/Statuses/RoundTrip.antt =====
-- Index statuses and index metadata read back from their JSON forms.
use parqdb.Prelude.{IfSome, All, String, true, List, [], ◌∷◌, ◌≡◌, refl}
use parqdb.Python.Exceptions.{ok}
use parqdb.Python.Int.{ℤ, is_non_negative}
use parqdb.Python.Float.{is_finite}
use parqdb.Python.Value.{str}
use parqdb.Text.Chars.{member}
use parqdb.Status.{IndexStatus, IndexInfo}
use parqdb.Models.Checks.{object, reject_unknown, require_fields}
use parqdb.Models.Checks.Laws.{
  NonEmpty, string-str, optional_string-of_option, optional_number-of_option,
  non_negative_integer-int, optional_non_negative_integer-of_option,
}
use parqdb.Models.Statuses.{
  index_status_to_json, index_status_from_json, states, state_of, paired, of_parameters,
  parameters_of, index_info_to_json, index_info_from_json,
}

abbrev IsNonNegative : ℤ → Type 0
IsNonNegative n = is_non_negative n ≡ true

-- What the client can rely on.
pub record IsStatus (s : IndexStatus) : Type 0 where
  pub state : member s.state states ≡ true
  pub progress : IfSome (λ x. is_finite x ≡ true) s.progress
  pub phase : IfSome NonEmpty s.phase
  pub completed : IfSome (λ n. is_non_negative n ≡ true) s.completed
  pub total : IfSome (λ n. is_non_negative n ≡ true) s.total
  pub current_snapshot_id : IfSome (λ n. is_non_negative n ≡ true) s.current_snapshot_id
  pub error : IfSome NonEmpty s.error
  pub error_code : IfSome NonEmpty s.error_code
  pub both : paired s.error s.error_code ≡ true

state_of-str : (s : String) → member s states ≡ true → state_of (str s) ≡ ok s
unfolding state_of
state_of-str s h = rw h refl

-- An index status with a documented state, a finite progress, non-negative counts, non-empty
-- texts, and an error exactly when it has an error code, is read back from its JSON form
-- unchanged.
pub index_status_from_json-to_json :
    (s : IndexStatus) → IsStatus s → index_status_from_json (index_status_to_json s) ≡ ok s
unfolding index_status_from_json index_status_to_json object reject_unknown require_fields
index_status_from_json-to_json s v =
    rw
      (
        state_of-str s.state v.state,
        optional_string-of_option s.error "error" v.error,
        optional_string-of_option s.error_code "error_code" v.error_code,
        v.both,
        optional_number-of_option s.progress "progress" v.progress,
        optional_string-of_option s.phase "phase" v.phase,
        optional_non_negative_integer-of_option s.completed "completed" v.completed,
        optional_non_negative_integer-of_option s.total "total" v.total,
        optional_non_negative_integer-of_option s.current_snapshot_id "current_snapshot_id"
            v.current_snapshot_id,
      )
      refl

pub record IsInfo (i : IndexInfo) : Type 0 where
  pub name : NonEmpty i.name
  pub column : NonEmpty i.column
  pub family : NonEmpty i.family
  pub metric : NonEmpty i.metric
  pub parameters : All (λ p. NonEmpty p.0 × NonEmpty p.1) i.parameters
  pub current_snapshot_id : is_non_negative i.current_snapshot_id ≡ true

parameters_of-of_parameters :
    (ps : List (String × String))
    → All (λ p. NonEmpty p.0 × NonEmpty p.1) ps
    → parameters_of (of_parameters ps) ≡ ok ps
unfolding parameters_of of_parameters
parameters_of-of_parameters [] h = refl
parameters_of-of_parameters ((k, v) ∷ ps) ((hk, hv), hs) =
    rw
      (
        string-str k "index parameter name" hk,
        string-str v "index parameter value" hv,
        parameters_of-of_parameters ps hs,
      )
      refl

-- The metadata of an index with non-empty texts and a non-negative snapshot is read back from
-- its JSON form unchanged.
pub index_info_from_json-to_json :
    (i : IndexInfo) → IsInfo i → index_info_from_json (index_info_to_json i) ≡ ok i
unfolding index_info_from_json index_info_to_json object reject_unknown require_fields
index_info_from_json-to_json i v =
    rw
      (
        parameters_of-of_parameters i.parameters v.parameters,
        string-str i.name "index name" v.name,
        string-str i.column "index column" v.column,
        string-str i.family "index family" v.family,
        string-str i.metric "index metric" v.metric,
        non_negative_integer-int i.current_snapshot_id "current_snapshot_id" v.current_snapshot_id,
      )
      refl
