-- ===== src/Models/Queries/RoundTrip.antt =====
-- A vector query read back from its JSON form, and what an accepted one satisfies.
use parqdb.Prelude.{
  IfSome, String, true, List, [], ◌∷◌, map, Option, some, none, ◌≡◌, ◌≢◌, refl, ap, ◌∙◌, arith, All,
}
use parqdb.Python.Exceptions.{ok, >>=-eq-ok, map_result-cons, ok_injective}
use parqdb.Python.Int.{is_positive}
use parqdb.Python.Float.{Float, is_finite}
use parqdb.Python.Value.{
  of_strings, of_option, Value, items-of_items, null, float, str, arr, nil, cons, items, of_items,
  get, get_or,
}
use parqdb.Identifier.{IsValid}
use parqdb.Query.{VectorQuery}
use parqdb.Models.Checks.{
  object, reject_unknown, strings, optional_string, positive_integer, optional_positive_integer,
  finite,
}
use parqdb.Models.Checks.Laws.{
  NonEmpty, optional_string-of_option, optional_string-eq_ok, positive_integer-int,
  positive_integer-eq_ok, optional_positive_integer-of_option, optional_positive_integer-eq_ok,
  finite-float, finite-eq_ok, map_result-map, map_result-All, strings-map, strings-All,
}
use parqdb.Models.Identifiers.{identifier_from_json}
use parqdb.Models.Identifiers.RoundTrip.{identifier_from_json-to_json, identifier_from_json-IsValid}
use parqdb.Models.Queries.{
  vector_query_to_json, vector_message, vector, projection_of, bypass_of, vector_query_from_json,
}

-- What the server can rely on.
pub record IsWellFormed (q : VectorQuery) : Type 0 where
  pub source : IsValid q.source
  pub some_query : q.query ≢ []
  pub finite_query : All (λ x. is_finite x ≡ true) q.query
  pub column : IfSome NonEmpty q.column
  pub index : IfSome NonEmpty q.index
  pub projection : IfSome (All NonEmpty) q.projection
  pub result_limit : is_positive q.result_limit ≡ true
  pub probe_count : IfSome (λ n. is_positive n ≡ true) q.probe_count
  pub predicate : IfSome NonEmpty q.predicate

map_id {ℓ} : {A : Type ℓ} (xs : List A) → map (λ x. x) xs ≡ xs
map_id [] = refl
map_id (x ∷ xs) = ap (λ ys. x ∷ ys) (map_id xs)

vector-map :
    (xs : List Float)
    → xs ≢ []
    → All (λ x. is_finite x ≡ true) xs
    → vector (arr (of_items (map float xs))) ≡ ok xs
unfolding vector
vector-map [] h k = absurd (h refl)
vector-map (x ∷ xs) h k = rw (items-of_items (map float xs)) (
    map_result-map (λ v. finite v vector_message) float (λ y. y) (λ y. is_finite y ≡ true)
      (λ y p. finite-float y vector_message p) (x ∷ xs) k
    ∙ ap ok (map_id (x ∷ xs)))

projection_of-of_option :
    (o : Option (List String))
    → IfSome (All NonEmpty) o
    → projection_of (of_option of_strings o) ≡ ok o
unfolding projection_of
projection_of-of_option none h = refl
projection_of-of_option (some ss) h =
    rw (items-of_items (map str ss), strings-map ss "projection field" h) refl

-- A well-formed vector query is read back from its JSON form unchanged.
pub vector_query_from_json-to_json :
    (q : VectorQuery) → IsWellFormed q → vector_query_from_json (vector_query_to_json q) ≡ ok q
unfolding vector_query_from_json vector_query_to_json object reject_unknown bypass_of
vector_query_from_json-to_json q w =
    rw
      (
        vector-map q.query w.some_query w.finite_query,
        projection_of-of_option q.projection w.projection,
        positive_integer-int q.result_limit "result_limit" w.result_limit,
        optional_positive_integer-of_option q.probe_count "probe_count" w.probe_count,
        identifier_from_json-to_json q.source w.source,
        optional_string-of_option q.column "column" w.column,
        optional_string-of_option q.index "index" w.index,
        optional_string-of_option q.predicate "predicate" w.predicate,
      )
      refl

vector-eq_ok :
    (v : Value) (xs : List Float) → vector v ≡ ok xs → (xs ≢ []) × All (λ x. is_finite x ≡ true) xs
unfolding vector
vector-eq_ok (arr (cons v vs)) [] h =
    let (y, rest, _, _, same) = map_result-cons (λ x. finite x vector_message) v (items vs) h in
    cc same
vector-eq_ok (arr (cons v vs)) (x ∷ xs) h = (
  cc,
  map_result-All (λ y. finite y vector_message) (λ x. is_finite x ≡ true)
      (λ y x. finite-eq_ok y vector_message x) (v ∷ items vs) (x ∷ xs) h,
)
vector-eq_ok (arr nil) xs h = cc
vector-eq_ok null xs h = cc
vector-eq_ok _ xs h = cc

projection_of-eq_ok :
    (v : Value) (o : Option (List String)) → projection_of v ≡ ok o → IfSome (All NonEmpty) o
unfolding projection_of
projection_of-eq_ok null o h = ground arith
projection_of-eq_ok (arr fields) o h =
    let (ss, e, e') = >>=-eq-ok (strings (items fields) "projection field") _ h in
    rw (← ok_injective e') (strings-All _ _ ss e)
projection_of-eq_ok _ o h = cc

-- Every vector query that is read from a JSON value is well formed: a valid table, a non-empty
-- vector of finite numbers, a positive limit, and non-empty or positive optional parts where
-- they are given.
pub vector_query_from_json-IsWellFormed :
    (v : Value) (q : VectorQuery) → vector_query_from_json v ≡ ok q → IsWellFormed q
unfolding vector_query_from_json
vector_query_from_json-IsWellFormed v q h =
    let (body, _, h₀) = >>=-eq-ok (object v _) _ h in
    let (_, _, h₁) = >>=-eq-ok (reject_unknown body _ _) _ h₀ in
    let (query, e₁, h₂) = >>=-eq-ok (vector (get body "query")) _ h₁ in
    let (projection, e₂, h₃) = >>=-eq-ok (projection_of (get body "projection")) _ h₂ in
    let (result_limit, e₃, h₄) =
      >>=-eq-ok (positive_integer (get_or body "result_limit" _) _) _ h₃ in
    let (probe_count, e₄, h₅) =
      >>=-eq-ok (optional_positive_integer (get body "probe_count") _) _ h₄ in
    let (bypass_index, _, h₆) = >>=-eq-ok (bypass_of (get_or body "bypass_index" _)) _ h₅ in
    let (source, e₆, h₇) = >>=-eq-ok (identifier_from_json (get body "source")) _ h₆ in
    let (column, e₇, h₈) = >>=-eq-ok (optional_string (get body "column") _) _ h₇ in
    let (index, e₈, h₉) = >>=-eq-ok (optional_string (get body "index") _) _ h₈ in
    let (predicate, e₉, last) = >>=-eq-ok (optional_string (get body "predicate") _) _ h₉ in
    rw (← ok_injective last) (record {
      source = identifier_from_json-IsValid _ source e₆;
      some_query = (vector-eq_ok _ query e₁).0;
      finite_query = (vector-eq_ok _ query e₁).1;
      column = (optional_string-eq_ok _ _ column e₇).0;
      index = (optional_string-eq_ok _ _ index e₈).0;
      projection = projection_of-eq_ok _ projection e₂;
      result_limit = (positive_integer-eq_ok _ _ result_limit e₃).0;
      probe_count = (optional_positive_integer-eq_ok _ _ probe_count e₄).0;
      predicate = (optional_string-eq_ok _ _ predicate e₉).0;
    })
