-- ===== src/Host/Explain.antt =====
-- The plans of session.py as texts: _format_explain, and _explain_query with its temporary view.
use parqdb.Prelude.{ℕ, suc, String, Bool, true, false, List, [], ◌∷◌, ◌++◌, eqb, if◌then◌else◌}
use parqdb.Python.Exceptions
use parqdb.Python.Exceptions.{Result, ok, err, raise, require, runtime_error, value_error}
use parqdb.Python.Value.{Value, str}
use parqdb.Python.Action.{Action, lift, after, ◌>>=◌, ◌>>◌}
use parqdb.Text.Chars.{format}
use parqdb.Text.Split.{join}
use parqdb.Text.Decimal.{of_nat}
use parqdb.Query.{VectorQuery}
use parqdb.Models.Registration.{Arrow}
use parqdb.Host.Native.{Native, PlanBatch}
use parqdb.Host.Quoting.{quote_identifier}
use parqdb.Host.Tables.{to_dataframe, deregister_table}

-- f"{plan_type}\n{plan}"
section : Value → Value → Result String
section (str plan_type) (str plan) = ok (format (plan_type ∷ "\n" ∷ plan ∷ []))
section _ _ = raise runtime_error "DataFusion EXPLAIN returned a non-string plan"

-- The loop over a zip that is strict.
pairs : List Value → List Value → Result (List String)
unfolding section
pairs [] [] = ok []
pairs (t ∷ ts) (p ∷ ps) =
    Exceptions.◌>>=◌ (section t p) λ s. Exceptions.◌>>=◌ (pairs ts ps) λ ss. ok (s ∷ ss)
pairs _ _ = raise value_error "zip() arguments have different lengths"

sections : List PlanBatch → Result (List String)
unfolding pairs
sections [] = ok []
sections (batch ∷ batches) =
    Exceptions.◌>>◌
      (require (eqb batch.num_columns 2) runtime_error
        "DataFusion EXPLAIN returned an invalid schema")
      (Exceptions.◌>>=◌ (pairs batch.plan_types batch.plans)
        λ ss. Exceptions.◌>>=◌ (sections batches) λ rest. ok (ss ++ rest))

plan_text : List String → Result String
plan_text [] = raise runtime_error "DataFusion EXPLAIN returned no plan"
plan_text (s ∷ ss) = ok (join "\n" (s ∷ ss))

unfoldable pub format_explain : List PlanBatch → Result String
unfolding sections plan_text
format_explain batches = Exceptions.◌>>=◌ (sections batches) plan_text

abbrev pub explain_prefix : Bool → Bool → String
explain_prefix verbose analyze =
    if analyze then "EXPLAIN ANALYZE" else if verbose then "EXPLAIN VERBOSE" else "EXPLAIN"

-- The session with the counter of the names that it has given to views.
pub record Session (N : Type 0) : Type 0 where
  pub query_names : ℕ
  pub inner : N

abbrev inside : {N A : Type 0} → Action N A → Action (Session N) A
inside m s = ((m s.inner).0, record s { inner = (m s.inner).1 })

-- next(self._query_names)
abbrev next_name : {N : Type 0} → Action (Session N) String
next_name s = (
  ok (format ("__parqdb_explain_" ∷ of_nat s.query_names ∷ [])),
  record s { query_names = suc s.query_names },
)

-- try: body finally: last
unfoldable pub finally : {S A : Type 0} → Action S A → Action S (Unit {0}) → Action S A
finally body last s = after (last (body s).1).0 (last (body s).1).1 (λ _ t. ((body s).0, t))

module _ {arrow : Arrow} {N Stream Frame : Type 0} (native : Native arrow N Stream Frame) where
  -- What runs while the view is registered.
  explained : Bool → Bool → String → Action N String
  explained verbose analyze name = do
    batches ←
        native.sql_collect
          (format (explain_prefix verbose analyze ∷ " SELECT * FROM " ∷ quote_identifier name ∷ []))
    lift (format_explain batches)

  -- _explain_query
  unfoldable pub explain_query : VectorQuery → Bool → Bool → Action (Session N) String
  unfolding explained
  explain_query q verbose analyze = do
    dataframe ← inside (to_dataframe native q)
    name ← next_name
    inside (native.register_view name dataframe)
    inside (finally (explained verbose analyze name) (deregister_table native name))

  unfoldable pub explain : VectorQuery → Bool → Action (Session N) String
  explain q verbose = explain_query q verbose false

  unfoldable pub analyze : VectorQuery → Action (Session N) String
  analyze q = explain_query q false true
