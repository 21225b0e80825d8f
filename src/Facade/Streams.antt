-- ===== src/Facade/Streams.antt =====
-- The set of an AsyncSession holds exactly the result streams that are not closed.
use parqdb.Prelude.{
  ℕ, ◌≤◌, Bool, true, false, not, ◌&&◌, ◌||◌, List, [], ◌∷◌, Option, some, none, ◌≡◌, refl, eqb,
  arith, if_both, Option-cases, inl, inr,
}
use parqdb.Python.Exceptions.{Result, ok, err}
use parqdb.Python.Action.{Action, after}
use parqdb.Server.Service.{Query}
use parqdb.Facade.{
  Transport, ResultStream, AsyncSession, discard, add_stream, release, mark_closed, stream,
  close_object, aclose, ended, next_batch, anext, aclose_all,
}

-- `stream in self._streams`
abbrev pub has : ℕ → List ℕ → Bool
has id [] = false
has id (j ∷ ids) = eqb j id || has id ids

abbrev pub is_open : {Handle : Type 0} → Option (ResultStream Handle) → Bool
is_open none = false
is_open (some o) = not o.closed

abbrev is_registered : {Handle : Type 0} → Option (ResultStream Handle) → Bool
is_registered none = false
is_registered (some o) = o.registered

-- What the session knows of its streams.
pub record IsTracked {W Handle : Type 0} (s : AsyncSession W Handle) : Type 0 where
  pub held : (id : ℕ) → has id s.streams ≡ is_open (s.objects id)
  pub registered : (id : ℕ) → is_registered (s.objects id) ≡ is_open (s.objects id)
  pub unmade : (id : ℕ) → s.fresh ≤ id → is_open (s.objects id) ≡ false

has-discard : (id j : ℕ) (ids : List ℕ) → has j (discard id ids) ≡ (has j ids && not (eqb id j))
unfolding discard
has-discard id j [] = refl
has-discard id j (k ∷ ids) = ground (arith, has-discard id j ids)

module _ {W Handle : Type 0} where
  add_stream-IsTracked :
      (handle : Handle) (s : AsyncSession W Handle)
      → IsTracked s
      → IsTracked (add_stream handle s).1
  unfolding add_stream
  add_stream-IsTracked handle s t = record {
    held = λ id. ground (arith, t.held id);
    registered = λ id. ground (arith, t.registered id);
    unmade = λ id h. ground (arith, t.unmade id);
  }

  pub moved-IsTracked :
      (s : AsyncSession W Handle) (w : W) → IsTracked s → IsTracked (record s { transport = w })
  moved-IsTracked s w t = record { held = t.held; registered = t.registered; unmade = t.unmade }

  release-IsTracked :
      (id : ℕ) (o : ResultStream Handle) (s : AsyncSession W Handle) (w : W)
      → s.objects id ≡ some o
      → o.closed ≡ false
      → IsTracked s
      → IsTracked (release id o (record (mark_closed id o s) { transport = w }))
  unfolding release
  release-IsTracked id o s w e p t =
      let q : o.registered ≡ true = ground (arith, t.registered id) in
      rw q (record {
        held = λ j. ground (arith, t.held j, has-discard id j s.streams);
        registered = λ j. ground (arith, t.registered j);
        unmade = λ j h. ground (arith, t.unmade j);
      })

module _ {W Handle Schema Batch : Type 0} (transport : Transport W Handle Schema Batch) where
  -- An action that keeps the session's knowledge true.
  abbrev Keeps : {A : Type 0} → Action (AsyncSession W Handle) A → Type 0
  Keeps m = (s : AsyncSession W Handle) → IsTracked s → IsTracked (m s).1

  pub after-IsTracked :
      {A B : Type 0} (r : Result A) (s : AsyncSession W Handle)
      (f : A → Action (AsyncSession W Handle) B)
      → IsTracked s
      → ((a : A) → IsTracked (f a s).1)
      → IsTracked (after r s f).1
  after-IsTracked (ok a) s f t h = h a
  after-IsTracked (err e) s f t h = t

  pub stream-IsTracked : (q : Query) → Keeps (stream transport q)
  unfolding stream
  stream-IsTracked q s t =
      let w = (transport.stream q s.transport).1 in
      after-IsTracked (transport.stream q s.transport).0 (record s { transport = w }) _
        (moved-IsTracked s w t)
        (λ handle.
          let v = (transport.schema handle w).1 in
          after-IsTracked (transport.schema handle w).0 (record s { transport = v }) _
            (moved-IsTracked s v t)
            (λ _. add_stream-IsTracked handle (record s { transport = v }) (moved-IsTracked s v t)))

  close_object-IsTracked :
      (id : ℕ) (o : ResultStream Handle) (s : AsyncSession W Handle)
      → s.objects id ≡ some o
      → IsTracked s
      → IsTracked (close_object transport id o s).1
  unfolding close_object
  close_object-IsTracked id o s e t =
      if_both (λ (p : Result (Unit {0}) × AsyncSession W Handle). IsTracked p.1) o.closed (λ _. t)
        (λ p. release-IsTracked id o s _ e p t)

  pub aclose-IsTracked : (id : ℕ) → Keeps (aclose transport id)
  unfolding aclose
  aclose-IsTracked id s t = elim (Option-cases (s.objects id)) [
    | inl e ↦ rw (aclose, e) t
    | inr (o, e) ↦ rw (aclose, e) (close_object-IsTracked id o s e t)
  ]

  ended-IsTracked : (id : ℕ) (r : Result (Option Batch)) → Keeps (ended transport id r)
  unfolding ended
  ended-IsTracked id (ok (some batch)) s t = t
  ended-IsTracked id (ok none) s t =
      after-IsTracked {B = Option Batch} (aclose transport id s).0 (aclose transport id s).1
        (λ _ u. (ok none, u)) (aclose-IsTracked id s t) (λ _. aclose-IsTracked id s t)
  ended-IsTracked id (err e) s t = t

  pub anext-IsTracked : (id : ℕ) → Keeps (anext transport id)
  unfolding anext next_batch
  anext-IsTracked id s t = elim (Option-cases (s.objects id)) [
    | inl e ↦ rw (anext, e) t
    | inr (o, e) ↦
        rw (anext, e)
          (if_both (λ (p : Result (Option Batch) × AsyncSession W Handle). IsTracked p.1) o.closed
            (λ _. t) (λ _. ended-IsTracked id _ _ (moved-IsTracked s _ t)))
  ]

  pub aclose_all-IsTracked : (ids : List ℕ) → Keeps (aclose_all transport ids)
  unfolding aclose_all
  aclose_all-IsTracked [] s t = t
  aclose_all-IsTracked (id ∷ ids) s t =
      after-IsTracked (aclose transport id s).0 (aclose transport id s).1
        (λ _. aclose_all transport ids) (aclose-IsTracked id s t)
        (λ _. aclose_all-IsTracked ids _ (aclose-IsTracked id s t))
