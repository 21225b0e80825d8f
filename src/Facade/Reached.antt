-- ===== src/Facade/Reached.antt =====
-- The states that a caller of an AsyncSession reaches, and how a session ends.
use parqdb.Prelude.{
  ℕ, ◌+◌, true, false, [], Option, ◌≡◌, refl, if_both, Bool-cases, inl, inr, ap, sym, ◌∙◌, subst,
}
use parqdb.Python.Exceptions.{Result, Exception, ok, err}
use parqdb.Python.Action.{after, after-eq_ok}
use parqdb.Server.Service.{Query}
use parqdb.Facade.{
  Transport, AsyncSession, new_session, stream, aclose, anext, aclose_all, close, behind,
}
use parqdb.Facade.Streams.{
  has, is_open, IsTracked, stream-IsTracked, aclose-IsTracked, anext-IsTracked,
  aclose_all-IsTracked, moved-IsTracked,
}
use parqdb.Facade.Closing.{
  Counts, aclose_all-closed, aclose_all-own, aclose_all-shut, aclose_all-closings,
}

module _ {W Handle Schema Batch : Type 0} (transport : Transport W Handle Schema Batch) where
  -- A call by the user, whatever it returns or raises.
  pub data Call (s t : AsyncSession W Handle) : Type 0 where
    call_stream : (q : Query) (r : Result ℕ) → stream transport q s ≡ (r, t) → Call s t
    call_anext : (id : ℕ) (r : Result (Option Batch)) → anext transport id s ≡ (r, t) → Call s t
    call_aclose : (id : ℕ) (r : Result (Unit {0})) → aclose transport id s ≡ (r, t) → Call s t
    call_close : (r : Result (Unit {0})) → close transport s ≡ (r, t) → Call s t

  -- Any sequence of calls.
  pub data Reach (s : AsyncSession W Handle) : AsyncSession W Handle → Type 0 where
    here : Reach s s
    next : {t u : AsyncSession W Handle} → Reach s t → Call t u → Reach s u

  emptied-IsTracked :
      (s : AsyncSession W Handle)
      → ((id : ℕ) → is_open (s.objects id) ≡ false)
      → IsTracked s
      → IsTracked (record s { streams = [] })
  emptied-IsTracked s shut t = record {
    held = λ id. sym (shut id);
    registered = t.registered;
    unmade = t.unmade;
  }

  -- After the loop over a session's streams has ended without an exception, none is open.
  all_shut :
      (s t : AsyncSession W Handle) (id : ℕ)
      → IsTracked s
      → aclose_all transport s.streams (record s { closed = true }) ≡ (ok tt, t)
      → is_open (t.objects id) ≡ false
  all_shut s t id k e = elim (Bool-cases (has id s.streams)) [
    | inl held ↦ aclose_all-own transport s.streams id (record s { closed = true }) t e held
    | inr other ↦
        aclose_all-shut transport s.streams id (record s { closed = true }) t e
          (sym (k.held id) ∙ other)
  ]

  closed-IsTracked :
      (s : AsyncSession W Handle) → IsTracked s → IsTracked (record s { closed = true })
  closed-IsTracked s t = record { held = t.held; registered = t.registered; unmade = t.unmade }

  rest-IsTracked :
      (s : AsyncSession W Handle) (r : Result (Unit {0})) (u : AsyncSession W Handle)
      → IsTracked s
      → aclose_all transport s.streams (record s { closed = true }) ≡ (r, u)
      → IsTracked u
      → IsTracked (after r u (λ _ v. behind transport.close (record v { streams = [] }))).1
  rest-IsTracked s (ok done) u k e t =
      moved-IsTracked (record u { streams = [] }) _
        (emptied-IsTracked u (λ id. all_shut s u id k e) t)
  rest-IsTracked s (err f) u k e t = t

  close-IsTracked : (s : AsyncSession W Handle) → IsTracked s → IsTracked (close transport s).1
  unfolding close
  close-IsTracked s k =
      if_both (λ (p : Result (Unit {0}) × AsyncSession W Handle). IsTracked p.1) s.closed (λ _. k)
        (λ _. rest-IsTracked s _ _ k refl (
          aclose_all-IsTracked transport s.streams (record s { closed = true })
            (closed-IsTracked s k)))

  Call-IsTracked : {s t : AsyncSession W Handle} → Call s t → IsTracked s → IsTracked t
  Call-IsTracked {s} (call_stream q r e) k =
      subst (λ (p : Result ℕ × AsyncSession W Handle). IsTracked p.1) e
        (stream-IsTracked transport q s k)
  Call-IsTracked {s} (call_anext id r e) k =
      subst (λ (p : Result (Option Batch) × AsyncSession W Handle). IsTracked p.1) e
        (anext-IsTracked transport id s k)
  Call-IsTracked {s} (call_aclose id r e) k =
      subst (λ (p : Result (Unit {0}) × AsyncSession W Handle). IsTracked p.1) e
        (aclose-IsTracked transport id s k)
  Call-IsTracked {s} (call_close r e) k =
      subst (λ (p : Result (Unit {0}) × AsyncSession W Handle). IsTracked p.1) e
        (close-IsTracked s k)

  Reach-IsTracked : {s t : AsyncSession W Handle} → Reach s t → IsTracked s → IsTracked t
  Reach-IsTracked here k = k
  Reach-IsTracked (next r call) k = Call-IsTracked call (Reach-IsTracked r k)

  new_session-IsTracked : (w : W) → IsTracked (new_session {Handle = Handle} w)
  unfolding new_session
  new_session-IsTracked w = record {
    held = λ id. refl;
    registered = λ id. refl;
    unmade = λ id h. refl;
  }

  -- In every state that is reached from a new session by any calls of stream and close and of
  -- __anext__ and aclose of its result streams, whatever they return or raise, the set of the
  -- session holds a result stream exactly if the stream was made and is not closed.
  pub Reach-has_iff :
      (w : W) (t : AsyncSession W Handle) (id : ℕ)
      → Reach (new_session w) t
      → has id t.streams ≡ is_open (t.objects id)
  Reach-has_iff w t id r = (Reach-IsTracked r (new_session-IsTracked w)).held id

  module _ (closings : W → ℕ) (c : Counts transport closings) where
    -- If a session that is reached from a new one and is not closed is closed without an
    -- exception, no result stream of it is open, its set is empty, and its transport has been
    -- closed exactly once more.
    pub close-eq_ok :
        (w : W) (s t : AsyncSession W Handle) (id : ℕ)
        → Reach (new_session w) s
        → s.closed ≡ false
        → close transport s ≡ (ok tt, t)
        → (is_open (t.objects id) ≡ false)
          × (has id t.streams ≡ false)
          × (closings t.transport ≡ closings s.transport + 1)
    unfolding close
    close-eq_ok w s t id reach open_ h =
        let k = Reach-IsTracked reach (new_session-IsTracked w) in
        let all = aclose_all transport s.streams (record s { closed = true }) in
        let (_, e, last) =
          after-eq_ok all.0 all.1 (λ _ v. behind transport.close (record v { streams = [] }))
            (rw (close, open_) at h) in
        let shut = all_shut s all.1 id k (ap (λ r. (r, all.1)) e) in
        let u = ap (λ p. p.1) last in
        (
          rw (← u) shut,
          rw (← u) refl,
          rw (← u) (
              c.close_counts all.1.transport
              ∙ ap (λ n. n + 1)
                  (aclose_all-closings transport closings c s.streams
                    (record s { closed = true }))),
        )

    -- If the aclose of a result stream raises while an open session is closed, close raises
    -- this exception, the transport has not been closed, and any further close returns without
    -- closing it.
    pub close-eq_err :
        (s : AsyncSession W Handle) (e : Exception)
        → s.closed ≡ false
        → (aclose_all transport s.streams (record s { closed = true })).0 ≡ err e
        → (t : AsyncSession W Handle) × (close transport s ≡ (err e, t))
          × (closings t.transport ≡ closings s.transport)
          × (close transport t ≡ (ok tt, t))
    unfolding close
    close-eq_err s e open_ h =
        let all = aclose_all transport s.streams (record s { closed = true }) in
        (
          all.1,
          rw (open_, h) refl,
          aclose_all-closings transport closings c s.streams (record s { closed = true }),
          rw (close, aclose_all-closed transport s.streams (record s { closed = true })) refl,
        )
