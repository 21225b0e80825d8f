-- ===== src/Runtime/Plans.antt =====
-- explain of runtime/service.py closes the stream that it opens.
use parqdb.Prelude.{ℕ, ◌+◌, String, Bool, not, List, Option, ◌≡◌, arith, if_both}
use parqdb.Python.Exceptions.{Result, ok, err, require, value_error}
use parqdb.Text.Chars.{is_empty}
use parqdb.Text.Decimal.{strip}
use parqdb.Python.Action.{Action, after, lift, ◌>>=◌}
use parqdb.Identifier.{index_namespace}
use parqdb.Query.{VectorQuery}
use parqdb.Models.Registration.{Arrow}
use parqdb.Server.Service.{Query, vector, sql}
use parqdb.Host.Native.{Native, SearchArguments}
use parqdb.Host.Tables.{
  table_definition, resolve_query_source, prepare_index_tables, prepare_tables,
}
use parqdb.Host.Explain.{finally, format_explain}
use parqdb.Runtime.{
  SessionService, ensure_open, hosted, explain, plan_stream, stream, collect_batches,
  prepared_search_arguments,
}

-- One for a stream that a call has opened.
abbrev pub opening : {A : Type 0} → Result A → ℕ
opening (ok a) = 1
opening (err e) = 0

-- How many streams the native session has opened and closed: a call that returns a stream opens
-- one, aclose closes one even if it raises, and no other call that explain makes does either.
pub record Counts {arrow : Arrow} {N Stream Frame : Type 0} (native : Native arrow N Stream Frame)
    (opened closed : N → ℕ) : Type 0 where
  pub sql_opens :
      (q : String) (n : N)
      → opened (native.stream_sql q n).1 ≡ opened n + opening (native.stream_sql q n).0
  pub sql_closes : (q : String) (n : N) → closed (native.stream_sql q n).1 ≡ closed n
  pub search_opens :
      (a : SearchArguments) (v w : Bool) (n : N)
      → opened (native.stream_explain_search a v w n).1
        ≡ opened n + opening (native.stream_explain_search a v w n).0
  pub search_closes :
      (a : SearchArguments) (v w : Bool) (n : N)
      → closed (native.stream_explain_search a v w n).1 ≡ closed n
  pub aclose_opens : (s : Stream) (n : N) → opened (native.aclose s n).1 ≡ opened n
  pub aclose_closes : (s : Stream) (n : N) → closed (native.aclose s n).1 ≡ closed n + 1
  pub batches_opens : (s : Stream) (n : N) → opened (native.plan_batches s n).1 ≡ opened n
  pub batches_closes : (s : Stream) (n : N) → closed (native.plan_batches s n).1 ≡ closed n
  pub definition_opens :
      (c : String) (ns : List String) (t : String) (n : N)
      → opened (native.persistent_table_definition_by_identifier c ns t n).1 ≡ opened n
  pub definition_closes :
      (c : String) (ns : List String) (t : String) (n : N)
      → closed (native.persistent_table_definition_by_identifier c ns t n).1 ≡ closed n
  pub metadata_opens :
      (d : String) (ns : List String) (i c : Option String) (n : N)
      → opened (native.select_index_metadata d ns i c n).1 ≡ opened n
  pub metadata_closes :
      (d : String) (ns : List String) (i c : Option String) (n : N)
      → closed (native.select_index_metadata d ns i c n).1 ≡ closed n

module _ {N : Type 0} (opened closed : N → ℕ) where
  -- `k` more streams are open in the second state than in the first, but `j` more were closed.
  abbrev Change : ℕ → ℕ → N → N → Type 0
  Change k j n m = opened m + closed n + j ≡ opened n + closed m + k

  after-Change :
      {S A B : Type 0} (host : S → N) (r : Result A) (f : A → Action S B) (n : N) (s : S)
      → Change 0 0 n (host s)
      → ((a : A) → Change (opening (f a s).0) 0 (host s) (host (f a s).1))
      → Change (opening (after r s f).0) 0 n (host (after r s f).1)
  after-Change host (ok a) f n s h k = omega (arith, k a)
  after-Change host (err e) f n s h k = h

  after_even-Change :
      {S A B : Type 0} (host : S → N) (r : Result A) (f : A → Action S B) (n : N) (s : S)
      → Change 0 0 n (host s)
      → ((a : A) → Change 0 0 (host s) (host (f a s).1))
      → Change 0 0 n (host (after r s f).1)
  after_even-Change host (ok a) f n s h k = omega (arith, k a)
  after_even-Change host (err e) f n s h k = h

  after-opening-Change :
      {S A B : Type 0} (host : S → N) (r : Result A) (f : A → Action S B) (n : N) (s : S)
      → Change (opening r) 0 n (host s)
      → ((a : A) → Change 0 1 (host s) (host (f a s).1))
      → Change 0 0 n (host (after r s f).1)
  after-opening-Change host (ok a) f n s h k = omega (arith, k a)
  after-opening-Change host (err e) f n s h k = h

  after_last-Change :
      {S A B : Type 0} (host : S → N) (r : Result A) (b : A → Result B) (n : N) (s : S)
      → Change 0 1 n (host s)
      → Change 0 1 n (host (after r s (λ a. lift (b a))).1)
  after_last-Change host (ok a) b n s h = h
  after_last-Change host (err e) b n s h = h

module _ {arrow : Arrow} {N Stream Frame : Type 0} (native : Native arrow N Stream Frame)
    (opened closed : N → ℕ) (c : Counts native opened closed) where
  abbrev Even : {A : Type 0} → Result A × N → N → Type 0
  Even p n = Change opened closed 0 0 n p.1

  definition-Even : (q : VectorQuery) (n : N) → Even (resolve_query_source native q n) n
  unfolding resolve_query_source table_definition
  definition-Even q n =
      after_even-Change opened closed (λ m. m)
        (native.persistent_table_definition_by_identifier q.source.catalog q.source.namespace
          q.source.name n).0
        _ n _
        (omega (
          arith,
          c.definition_opens q.source.catalog q.source.namespace q.source.name n,
          c.definition_closes q.source.catalog q.source.namespace q.source.name n,
        ))
        (λ a. omega arith)

  prepare-Even :
      (q : VectorQuery) (source : String) (n : N) → Even (prepare_index_tables native q source n) n
  unfolding prepare_index_tables prepare_tables
  prepare-Even q source n =
      if_both (λ (m : Action N (Unit {0})). Even (m n) n) q.bypass_index (λ _. omega arith)
        (λ _.
          after_even-Change opened closed (λ m. m)
            (native.select_index_metadata source (index_namespace q.source) q.index q.column n).0 _
            n _
            (omega (
              arith,
              c.metadata_opens source (index_namespace q.source) q.index q.column n,
              c.metadata_closes source (index_namespace q.source) q.index q.column n,
            ))
            (λ a.
              after_even-Change opened closed (λ m. m) (native.loads a) _ _ _ (omega arith)
                (λ b. omega arith)))

  prepared-Even : (q : VectorQuery) (n : N) → Even (prepared_search_arguments native q n) n
  unfolding prepared_search_arguments
  prepared-Even q n =
      after_even-Change opened closed (λ m. m) (resolve_query_source native q n).0 _ n _
        (definition-Even q n)
        (λ source.
          after_even-Change opened closed (λ m. m) (prepare_index_tables native q source _).0 _ _ _
            (prepare-Even q source _) (λ _. omega arith))

  collect-Change : (s : Stream) (n : N) → Change opened closed 0 1 n (collect_batches native s n).1
  unfolding collect_batches finally
  collect-Change s n =
      let m = (native.plan_batches s n).1 in
      after_last-Change opened closed (λ m. m) (native.aclose s m).0
        (λ _. (native.plan_batches s n).0) n (native.aclose s m).1
        (omega (
          arith,
          c.batches_opens s n,
          c.batches_closes s n,
          c.aclose_opens s m,
          c.aclose_closes s m,
        ))

  abbrev Opening : {A : Type 0} → Result A × SessionService N → SessionService N → Type 0
  Opening p s = Change opened closed (opening p.0) 0 s.host p.1.host

  open-Opening :
      {A : Type 0} (k : Unit {0} → Action (SessionService N) A) (s : SessionService N)
      → Opening (k tt s) s
      → Opening ((ensure_open >>= k) s) s
  unfolding ensure_open
  open-Opening {A} k s h =
      if_both
        (λ (p : Result (Unit {0}) × SessionService N).
          Change opened closed (opening (after p.0 p.1 k).0) 0 s.host (after p.0 p.1 k).1.host)
        s.closed (λ _. omega arith) (λ _. h)

  sql-Opening :
      (statement : String) (s : SessionService N) → Opening (stream native (sql statement) s) s
  unfolding stream
  sql-Opening statement s = open-Opening _ s (
      after-Change opened closed (λ (t : SessionService N). t.host)
        (require (not (is_empty (strip statement))) value_error "SQL statement must not be empty")
        (λ _. hosted (native.stream_sql statement)) s.host s (omega arith)
        (λ _. omega (arith, c.sql_opens statement s.host, c.sql_closes statement s.host)))

  plan_stream-Opening :
      (q : Query) (v a : Bool) (s : SessionService N) → Opening (plan_stream native q v a s) s
  unfolding plan_stream
  plan_stream-Opening (sql statement) v a s = sql-Opening _ s
  plan_stream-Opening (vector q) v a s =
      after-Change opened closed (λ (t : SessionService N). t.host)
        (prepared_search_arguments native q s.host).0 _ s.host _ (prepared-Even q s.host)
        (λ args.
          let n = (prepared_search_arguments native q s.host).1 in
          omega (arith, c.search_opens args v a n, c.search_closes args v a n))

  abbrev explained : Query → Bool → Bool → Action (SessionService N) String
  explained q v a = plan_stream native q v a >>= λ t.
      hosted (collect_batches native t) >>= λ batches. lift (format_explain batches)

  explained-Change :
      (q : Query) (v a : Bool) (s : SessionService N)
      → Change opened closed 0 0 s.host (explained q v a s).1.host
  explained-Change q v a s =
      after-opening-Change opened closed (λ (t : SessionService N). t.host)
        (plan_stream native q v a s).0 _ s.host (plan_stream native q v a s).1
        (plan_stream-Opening q v a s)
        (λ t.
          let u = (plan_stream native q v a s).1 in
          after_last-Change opened closed (λ (t : SessionService N). t.host)
            (collect_batches native t u.host).0 format_explain u.host
            (record u { host = (collect_batches native t u.host).1 }) (collect-Change t u.host))

  -- If only the calls that return a stream open one, aclose closes one even if it raises, and
  -- no other call that explain makes opens or closes any, then explain, whatever it returns or
  -- raises, for a query or an SQL statement, closes as many streams as it opens.
  pub explain-Change :
      (q : Query) (verbose analyze : Bool) (s : SessionService N)
      → opened (explain native q verbose analyze s).1.host + closed s.host
        ≡ opened s.host + closed (explain native q verbose analyze s).1.host
  unfolding explain ensure_open
  explain-Change q v a s =
      if_both
        (λ (p : Result (Unit {0}) × SessionService N).
          opened (after p.0 p.1 (λ _. explained q v a)).1.host + closed s.host
          ≡ opened s.host + closed (after p.0 p.1 (λ _. explained q v a)).1.host)
        s.closed (λ _. omega arith) (λ _. omega (arith, explained-Change q v a s))
