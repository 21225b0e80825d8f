-- ===== src/Facade/Blocking/Stopping.antt =====
-- A blocking session that is closed refuses what it would run, and has stopped its bridge once.
use parqdb.Prelude.{
  Bool, true, false, List, [], ◌∷◌, ◌≡◌, refl, sym, ap, ◌∙◌, subst, arith, if_both, if◌then◌else◌,
}
use parqdb.Python.Exceptions.{Result, Exception, ok, err}
use parqdb.Python.Action.{Action, after}
use parqdb.Facade.Blocking.{
  BlockingBridge, Session, session_closed, bridge_close, new_bridge, bridge_run, run_sync, direct,
  reader_of, add_reader, stream, connected, connect, close_readers, closing, close,
}

bridge_eq :
    (b : BlockingBridge) → b.closed ≡ true → b.stops ≡ 1 → b ≡ record { closed = true; stops = 1 }
bridge_eq b p q = ground arith

module _ {A Reader : Type 0} where
  connected-ok :
      (r : Result (Unit {0})) (a : A) (s : Session A Reader) (b : BlockingBridge)
      → connected r a ≡ (ok s, b)
      → (s.closed ≡ false) × (s.bridge ≡ new_bridge)
  unfolding connected
  connected-ok (ok done) a s b e = (cc, cc)
  connected-ok (err x) a s b e = (cc, cc)

  connect-ok :
      (opening : Action A (Unit {0})) (a : A) (s : Session A Reader) (b : BlockingBridge)
      → connect opening a ≡ (ok s, b)
      → (s.closed ≡ false) × (s.bridge ≡ new_bridge)
  unfolding connect
  connect-ok opening a s b e = connected-ok (opening a).0 (opening a).1 s b e

  -- A connect that fails has stopped the bridge that it made.
  pub connect-err :
      (opening : Action A (Unit {0})) (a : A) (x : Exception)
      → (opening a).0 ≡ err x
      → connect {Reader = Reader} opening a ≡ (err x, record { closed = true; stops = 1 })
  unfolding connect
  connect-err opening a x e = rw e refl

  module _ (close_reader : Reader → Action A (Unit {0})) (close_async : Action A (Unit {0})) where
    -- The bridge is stopped once if the session is closed, and not at all if not.
    pub record IsStopped (s : Session A Reader) : Type 0 where
      pub same : s.bridge.closed ≡ s.closed
      pub once : s.bridge.stops ≡ (if s.closed then 1 else 0)

    -- A call by the user: an operation that _run_sync runs, one that it does not, a stream, or close.
    -- Or readers leave the weak set.
    pub data Call (s t : Session A Reader) : Type 1 where
      call_direct :
          {B : Type 0} (operation : Action A B) (r : Result B)
          → direct operation s ≡ (r, t)
          → Call s t
      call_stream :
          {Query Stream : Type 0} (open_stream : Query → Action A Stream) (is_arrow : Stream → Bool)
          (from_stream from_batches : Stream → Action A Reader) (query : Query) (r : Result Reader)
          → stream open_stream is_arrow from_stream from_batches query s ≡ (r, t)
          → Call s t
      call_forget : (readers : List Reader) → t ≡ record s { readers = readers } → Call s t
      call_run :
          {B : Type 0} (operation : Action A B) (r : Result B)
          → run_sync operation s ≡ (r, t)
          → Call s t
      call_close : (r : Result (Unit {0})) → close close_reader close_async s ≡ (r, t) → Call s t

    pub data Reach (s : Session A Reader) : Session A Reader → Type 1 where
      here : Reach s s
      next : {t u : Session A Reader} → Reach s t → Call t u → Reach s u

    abbrev Same : Session A Reader → Session A Reader → Type 0
    Same s t = (t.bridge ≡ s.bridge) × (t.closed ≡ s.closed)

    bridge_run-Same :
        {B : Type 0} (operation : Action A B) (s : Session A Reader)
        → Same s (bridge_run operation s).1
    unfolding bridge_run
    bridge_run-Same {B} operation s =
        if_both (λ (p : Result B × Session A Reader). Same s p.1) s.bridge.closed
          (λ _. (refl, refl)) (λ _. (refl, refl))

    after-Same :
        (r : Result (Unit {0})) (s t : Session A Reader) (f : Action (Session A Reader) (Unit {0}))
        → Same s t
        → Same s (f t).1
        → Same s (after r t (λ _. f)).1
    after-Same (ok done) s t f h k = k
    after-Same (err e) s t f h k = h

    close_readers-Same :
        (readers : List Reader) (s t : Session A Reader)
        → Same s t
        → Same s (close_readers close_reader close_async readers t).1
    unfolding close_readers
    close_readers-Same [] s t h = h
    close_readers-Same (reader ∷ readers) s t h =
        let u = record t { async = (close_reader reader t.async).1 } in
        after-Same (close_reader reader t.async).0 s u
          (close_readers close_reader close_async readers) h (close_readers-Same readers s u h)

    closing-Same : (s : Session A Reader) → Same s (closing close_reader close_async s).1
    unfolding closing
    closing-Same s =
        let t = (close_readers close_reader close_async s.readers s).1 in
        let h = close_readers-Same s.readers s s (refl, refl) in
        let k = bridge_run-Same close_async (record t { readers = [] }) in
        after-Same (close_readers close_reader close_async s.readers s).0 s t
          (λ u. bridge_run close_async (record u { readers = [] })) h (k.0 ∙ h.0, k.1 ∙ h.1)

    Same-IsStopped : (s t : Session A Reader) → Same s t → IsStopped s → IsStopped t
    Same-IsStopped s t (b, c) i = record {
      same = ap (λ x. x.closed) b ∙ i.same ∙ sym c;
      once = rw (b, c) i.once;
    }

    bridge_close-IsStopped :
        (u : Session A Reader)
        → u.bridge.closed ≡ false
        → u.bridge.stops ≡ 0
        → IsStopped (record u { closed = true; bridge = bridge_close u.bridge })
    unfolding bridge_close
    bridge_close-IsStopped u p q = record {
      same = ground arith;
      once = rw (bridge_close, p) (omega (arith, q));
    }

    close-IsStopped :
        (s : Session A Reader) → IsStopped s → IsStopped (close close_reader close_async s).1
    unfolding close
    close-IsStopped s i =
        if_both (λ (p : Result (Unit {0}) × Session A Reader). IsStopped p.1) s.closed (λ _. i)
          (λ e.
            let b = (closing-Same s).0 in
            bridge_close-IsStopped (closing close_reader close_async s).1
              (ap (λ x. x.closed) b ∙ i.same ∙ e)
              (ap (λ x. x.stops) b ∙ i.once ∙ ap (λ t. if t then 1 else 0) e))

    run_sync-IsStopped :
        {B : Type 0} (operation : Action A B) (s : Session A Reader)
        → IsStopped s
        → IsStopped (run_sync operation s).1
    unfolding run_sync
    run_sync-IsStopped {B} operation s i =
        if_both (λ (p : Result B × Session A Reader). IsStopped p.1) s.closed (λ _. i)
          (λ _. Same-IsStopped s _ (bridge_run-Same operation s) i)

    direct-Same :
        {B : Type 0} (operation : Action A B) (s : Session A Reader) → Same s (direct operation s).1
    unfolding direct
    direct-Same operation s = (refl, refl)

    run_sync-Same :
        {B : Type 0} (operation : Action A B) (s : Session A Reader)
        → Same s (run_sync operation s).1
    unfolding run_sync
    run_sync-Same {B} operation s =
        if_both (λ (p : Result B × Session A Reader). Same s p.1) s.closed (λ _. (refl, refl))
          (λ _. bridge_run-Same operation s)

    then-Same :
        {B C : Type 0} (r : Result B) (s t : Session A Reader) (f : B → Action (Session A Reader) C)
        → Same s t
        → ((b : B) → Same t (f b t).1)
        → Same s (after r t f).1
    then-Same (ok b) s t f (e, c) h = let (e', c') = h b in (e' ∙ e, c' ∙ c)
    then-Same (err x) s t f h k = h

    stream-Same :
        {Query Stream : Type 0} (open_stream : Query → Action A Stream) (is_arrow : Stream → Bool)
        (from_stream from_batches : Stream → Action A Reader) (query : Query) (s : Session A Reader)
        → Same s (stream open_stream is_arrow from_stream from_batches query s).1
    unfolding stream
    stream-Same open_stream is_arrow from_stream from_batches query s =
        let t = (run_sync (open_stream query) s).1 in
        then-Same (run_sync (open_stream query) s).0 s t
          (λ opened u.
            after (direct (reader_of open_stream is_arrow from_stream from_batches opened) u).0
              (direct (reader_of open_stream is_arrow from_stream from_batches opened) u).1
              (add_reader))
          (run_sync-Same (open_stream query) s)
          (λ opened.
            let m = reader_of open_stream is_arrow from_stream from_batches opened in
            then-Same (direct m t).0 t (direct m t).1 add_reader (direct-Same m t)
              (λ reader. (refl, refl)))

    Call-IsStopped : {s t : Session A Reader} → Call s t → IsStopped s → IsStopped t
    Call-IsStopped {s} (call_run {B} operation r e) i =
        subst (λ (p : Result B × Session A Reader). IsStopped p.1) e
          (run_sync-IsStopped operation s i)
    Call-IsStopped {s} (call_close r e) i =
        subst (λ (p : Result (Unit {0}) × Session A Reader). IsStopped p.1) e (close-IsStopped s i)
    Call-IsStopped {s} (call_direct {B} operation r e) i =
        subst (λ (p : Result B × Session A Reader). IsStopped p.1) e
          (Same-IsStopped s _ (direct-Same operation s) i)
    Call-IsStopped {s} (call_stream open_stream is_arrow from_stream from_batches query r e) i =
        subst (λ (p : Result Reader × Session A Reader). IsStopped p.1) e
          (Same-IsStopped s _ (stream-Same open_stream is_arrow from_stream from_batches query s) i)
    Call-IsStopped {s} (call_forget readers e) i = rw e (Same-IsStopped s _ (refl, refl) i)

    Reach-IsStopped : {s t : Session A Reader} → Reach s t → IsStopped s → IsStopped t
    Reach-IsStopped here i = i
    Reach-IsStopped (next r call) i = Call-IsStopped call (Reach-IsStopped r i)

    close-closed : (s : Session A Reader) → (close close_reader close_async s).1.closed ≡ true
    unfolding close
    close-closed s = ground arith

    run_sync-closed :
        {B : Type 0} (operation : Action A B) (s : Session A Reader)
        → s.closed ≡ true
        → run_sync operation s ≡ (err session_closed, s)
    unfolding run_sync
    run_sync-closed operation s e = rw e refl

    stream-closed :
        {Query Stream : Type 0} (open_stream : Query → Action A Stream) (is_arrow : Stream → Bool)
        (from_stream from_batches : Stream → Action A Reader) (query : Query) (s : Session A Reader)
        → s.closed ≡ true
        → stream open_stream is_arrow from_stream from_batches query s ≡ (err session_closed, s)
    unfolding stream
    stream-closed open_stream is_arrow from_stream from_batches query s e =
        rw (run_sync-closed (open_stream query) s e) refl

    -- In every state that is reached from a session that connect returns, by any operations
    -- that _run_sync runs, streams, direct uses of the asynchronous session, losses of readers
    -- and closes, whatever they return or raise, after one more close, also if that close
    -- raises, every operation that _run_sync runs and every stream raises RuntimeError with the
    -- text `session is closed` and changes nothing, and the event loop of the bridge has been
    -- stopped exactly once.
    pub close-run_sync :
        {B Query Stream : Type 0} (opening : Action A (Unit {0})) (a : A) (b : BlockingBridge)
        (operation : Action A B) (open_stream : Query → Action A Stream) (is_arrow : Stream → Bool)
        (from_stream from_batches : Stream → Action A Reader) (query : Query)
        (s t : Session A Reader)
        → connect opening a ≡ (ok s, b)
        → Reach s t
        → (run_sync operation (close close_reader close_async t).1
            ≡ (err session_closed, (close close_reader close_async t).1))
          × (stream open_stream is_arrow from_stream from_batches query
                (close close_reader close_async t).1
              ≡ (err session_closed, (close close_reader close_async t).1))
          × ((close close_reader close_async t).1.bridge ≡ record { closed = true; stops = 1 })
    close-run_sync opening a b operation open_stream is_arrow from_stream from_batches query s t
          made reach =
        let (o, b) = connect-ok opening a s b made in
        let i = close-IsStopped t (
          Reach-IsStopped reach (record {
            same = ap (λ x. x.closed) b ∙ sym o;
            once = ap (λ x. x.stops) b ∙ sym (ap (λ x. if x then 1 else 0) o);
          })) in
        let c = close-closed t in
        (
          run_sync-closed operation (close close_reader close_async t).1 c,
          stream-closed open_stream is_arrow from_stream from_batches query
              (close close_reader close_async t).1 c,
          bridge_eq _ (i.same ∙ c) (i.once ∙ ap (λ x. if x then 1 else 0) c),
        )
