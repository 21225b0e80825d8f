-- ===== src/Facade/Closing.antt =====
-- What closing an AsyncSession does to its streams and to its transport.
use parqdb.Prelude.{
  ℕ, ◌+◌, true, false, List, [], ◌∷◌, some, ◌≡◌, refl, eqb, eqb_iff, arith, Bool-cases,
  Option-cases, inl, inr, ap, ◌∙◌, subst,
}
use parqdb.Python.Exceptions.{Result, ok, err}
use parqdb.Python.Action.{Action, after, after-eq_ok}
use parqdb.Server.Service.{Query}
use parqdb.Facade.{Transport, ResultStream, AsyncSession, release, close_object, aclose, aclose_all}
use parqdb.Facade.Streams.{has, is_open}

-- How often the transport has been closed.
pub record Counts {W Handle Schema Batch : Type 0} (transport : Transport W Handle Schema Batch)
    (closings : W → ℕ) : Type 0 where
  pub close_counts : (w : W) → closings (transport.close w).1 ≡ closings w + 1
  pub stream_keeps : (q : Query) (w : W) → closings (transport.stream q w).1 ≡ closings w
  pub schema_keeps : (h : Handle) (w : W) → closings (transport.schema h w).1 ≡ closings w
  pub anext_keeps : (h : Handle) (w : W) → closings (transport.anext h w).1 ≡ closings w
  pub aclose_keeps : (h : Handle) (w : W) → closings (transport.aclose h w).1 ≡ closings w

-- A predicate of the state, whether a first action ends in an exception or not.
after_both :
    {S : Type 0} (P : S → Type 0) (r : Result (Unit {0})) (s : S) (m : Action S (Unit {0}))
    → P s
    → P (m s).1
    → P (after r s (λ _. m)).1
after_both P (ok done) s m h k = k
after_both P (err e) s m h k = h

module _ {W Handle Schema Batch : Type 0} (transport : Transport W Handle Schema Batch) where
  abbrev Session : Type 0
  Session = AsyncSession W Handle

  -- Nothing that is closed is opened by closing another stream.
  close_object-shut :
      (id j : ℕ) (o : ResultStream Handle) (s : Session)
      → s.objects id ≡ some o
      → is_open (s.objects j) ≡ false
      → is_open ((close_object transport id o s).1.objects j) ≡ false
  unfolding close_object release
  close_object-shut id j o s e h = ground arith

  close_object-own :
      (id : ℕ) (o : ResultStream Handle) (s : Session)
      → s.objects id ≡ some o
      → is_open ((close_object transport id o s).1.objects id) ≡ false
  unfolding close_object release
  close_object-own id o s e = ground (arith, eqb_iff id id)

  aclose-shut :
      (id j : ℕ) (s : Session)
      → is_open (s.objects j) ≡ false
      → is_open ((aclose transport id s).1.objects j) ≡ false
  unfolding aclose
  aclose-shut id j s h = elim (Option-cases (s.objects id)) [
    | inl e ↦ rw (aclose, e) h
    | inr (o, e) ↦ rw (aclose, e) (close_object-shut id j o s e h)
  ]

  aclose-own : (id : ℕ) (s : Session) → is_open ((aclose transport id s).1.objects id) ≡ false
  unfolding aclose
  aclose-own id s = elim (Option-cases (s.objects id)) [
    | inl e ↦ rw (aclose, e) (ap is_open e)
    | inr (o, e) ↦ rw (aclose, e) (close_object-own id o s e)
  ]

  pub aclose_all-shut :
      (ids : List ℕ) (j : ℕ) (s t : Session)
      → aclose_all transport ids s ≡ (ok tt, t)
      → is_open (s.objects j) ≡ false
      → is_open (t.objects j) ≡ false
  unfolding aclose_all
  aclose_all-shut [] j s t e h = rw (← ap (λ p. p.1) e) h
  aclose_all-shut (id ∷ ids) j s t e h =
      let (_, _, e') =
        after-eq_ok (aclose transport id s).0 (aclose transport id s).1
          (λ _. aclose_all transport ids) e in
      aclose_all-shut ids j (aclose transport id s).1 t e' (aclose-shut id j s h)

  pub aclose_all-own :
      (ids : List ℕ) (j : ℕ) (s t : Session)
      → aclose_all transport ids s ≡ (ok tt, t)
      → has j ids ≡ true
      → is_open (t.objects j) ≡ false
  unfolding aclose_all
  aclose_all-own [] j s t e h = cc
  aclose_all-own (id ∷ ids) j s t e h =
      let (_, _, e') =
        after-eq_ok (aclose transport id s).0 (aclose transport id s).1
          (λ _. aclose_all transport ids) e in
      elim (Bool-cases (eqb id j)) [
        | inl same ↦ aclose_all-shut ids j (aclose transport id s).1 t e' (
            subst (λ k. is_open ((aclose transport id s).1.objects k) ≡ false)
              ((eqb_iff id j).0 same) (aclose-own id s))
        | inr other ↦ aclose_all-own ids j (aclose transport id s).1 t e' (rw other at h)
      ]

  aclose-closed : (id : ℕ) (s : Session) → (aclose transport id s).1.closed ≡ s.closed
  unfolding aclose close_object release
  aclose-closed id s = elim (Option-cases (s.objects id)) [
    | inl e ↦ rw (aclose, e) refl
    | inr (o, e) ↦ rw (aclose, e) (ground arith)
  ]

  pub aclose_all-closed :
      (ids : List ℕ) (s : Session) → (aclose_all transport ids s).1.closed ≡ s.closed
  unfolding aclose_all
  aclose_all-closed [] s = refl
  aclose_all-closed (id ∷ ids) s =
      after_both (λ u. u.closed ≡ s.closed) (aclose transport id s).0 (aclose transport id s).1
        (aclose_all transport ids) (aclose-closed id s)
        (aclose_all-closed ids (aclose transport id s).1 ∙ aclose-closed id s)

  module _ (closings : W → ℕ) (c : Counts transport closings) where
    pub aclose-closings :
        (id : ℕ) (s : Session) → closings (aclose transport id s).1.transport ≡ closings s.transport
    unfolding aclose close_object release
    aclose-closings id s = elim (Option-cases (s.objects id)) [
      | inl e ↦ rw (aclose, e) refl
      | inr (o, e) ↦ rw (aclose, e) (ground (arith, c.aclose_keeps o.handle s.transport))
    ]

    pub aclose_all-closings :
        (ids : List ℕ) (s : Session)
        → closings (aclose_all transport ids s).1.transport ≡ closings s.transport
    unfolding aclose_all
    aclose_all-closings [] s = refl
    aclose_all-closings (id ∷ ids) s =
        after_both (λ u. closings u.transport ≡ closings s.transport) (aclose transport id s).0
          (aclose transport id s).1 (aclose_all transport ids) (aclose-closings id s)
          (aclose_all-closings ids (aclose transport id s).1 ∙ aclose-closings id s)
