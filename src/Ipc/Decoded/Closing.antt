-- ===== src/Ipc/Decoded/Closing.antt =====
-- However a consumer uses a decoding stream, its source is closed once and its schema stays.
use parqdb.Prelude.{
  ℕ, zero, suc, Bool, true, false, List, [], ◌∷◌, Option, some, none, ◌≡◌, arith, if_both, subst,
}
use parqdb.Python.Exceptions.{Result, ok, err}
use parqdb.Python.Action.{after, lift}
use parqdb.Ipc.{ByteStream, Decoder, Progress, resumed}
use parqdb.Ipc.Decoded.{DecodedIpcStream, aclose, fail, anext, wait_pending, popped, turn}
use parqdb.Ipc.Decoded.Turns.{Counts, IsClosedOnce, Follows, aclose-Good, read_next_chunk-Follows}

module _ {W Schema Batch : Type 0} (source : ByteStream W) (decoder : Decoder W Schema Batch)
    (same : Schema → Schema → Bool) where
  abbrev pub State : Type 0
  State = DecodedIpcStream W Schema Batch

  -- A call by the consumer, whatever it returns or raises.
  pub data Call (s t : DecodedIpcStream W Schema Batch) : Type 0 where
    call_anext :
        (fuel : ℕ) (r : Result (Option Batch))
        → anext source decoder same fuel s ≡ some (r, t)
        → Call s t
    call_aclose : (r : Result (Unit {0})) → aclose source decoder same s ≡ (r, t) → Call s t

  -- Any sequence of calls.
  pub data Reach (s : DecodedIpcStream W Schema Batch)
      : DecodedIpcStream W Schema Batch → Type 0 where
    here : Reach s s
    next : {t u : State} → Reach s t → Call t u → Reach s u

  module _ (closings : W → ℕ) (c : Counts source decoder closings) {Content : Type 0}
      (fields : Schema → Content)
      (same_fields : (a b : Schema) → same a b ≡ true → fields a ≡ fields b) where
    abbrev pub Good : Option Schema → State → Type 0
    Good = IsClosedOnce closings fields

    turn_after :
        (before : Option Schema) (r : Result (Unit {0})) (s : State)
        → Follows source decoder same closings c fields same_fields before (r, s)
        → Follows source decoder same closings c fields same_fields before
            (after r s (λ _. lift (ok true)))
    unfolding Follows
    turn_after before (ok done) s h = h
    turn_after before (err e) s h = h

    Settled : Option Schema → Progress State Batch → Type 0
    Settled before none = Unit
    Settled before (some (r, s)) = Good before s

    module _ (before : Option Schema) (loop : State → Progress State Batch)
        (settled : (s : State) → s.closed ≡ false → Good before s → Settled before (loop s)) where
      resumed_stop-Settled :
          (r : Result (Unit {0})) (s : State)
          → Good before s
          → Settled before (
              resumed loop
                (after r s (λ _. lift (ok false))).0
                (after r s (λ _. lift (ok false))).1)
      unfolding Settled resumed
      resumed_stop-Settled (ok done) s i = i
      resumed_stop-Settled (err e) s i = i

      resumed-Settled :
          (p : Result Bool × State)
          → Follows source decoder same closings c fields same_fields before p
          → Settled before (resumed loop p.0 p.1)
      unfolding Follows Settled resumed
      resumed-Settled (ok true, s) (i, p) = settled s p i
      resumed-Settled (ok false, s) (i, p) = i
      resumed-Settled (err e, s) t = t.0

      popped-Settled :
          (pending : List Batch) (s : State)
          → s.closed ≡ false
          → Good before s
          → Settled before (popped source decoder same loop pending s)
      unfolding popped turn
      popped-Settled (batch ∷ rest) s p i =
          unfold Settled in
          record { count = i.count; nothing_pending = λ q. ground arith; keeps = i.keeps }
      popped-Settled [] s p i =
          if_both (λ (q : Result Bool × State). Settled before (resumed loop q.0 q.1))
            s.input_finished
            (λ f.
              unfold fail in
              resumed_stop-Settled _ _
                (aclose-Good source decoder same closings c fields same_fields before s i))
            (λ f. resumed-Settled _ (
              turn_after before _ _ (
                read_next_chunk-Follows source decoder same closings c fields same_fields before s
                  (ground arith) i)))

    wait_pending-Settled :
        (before : Option Schema) (fuel : ℕ) (s : State)
        → s.closed ≡ false
        → Good before s
        → Settled before (wait_pending source decoder same fuel s)
    unfolding wait_pending
    wait_pending-Settled before zero s p i = unfold Settled in tt
    wait_pending-Settled before (suc fuel) s p i =
        popped-Settled before (wait_pending source decoder same fuel)
          (wait_pending-Settled before fuel) s.pending s p i

    anext-Settled :
        (before : Option Schema) (fuel : ℕ) (s : State)
        → Good before s
        → Settled before (anext source decoder same fuel s)
    unfolding anext
    anext-Settled before fuel s i =
        if_both (Settled before) s.closed (λ e. unfold Settled in i)
          (λ e. wait_pending-Settled before fuel s e i)

    Call-IsClosedOnce :
        {s t : State} (before : Option Schema) → Call s t → Good before s → Good before t
    unfolding Settled
    Call-IsClosedOnce {s} {t} before (call_anext fuel r e) i =
        subst (Settled before) e (anext-Settled before fuel s i)
    Call-IsClosedOnce {s} {t} before (call_aclose r e) i =
        subst (λ (p : Result (Unit {0}) × State). Good before p.1) e
          (aclose-Good source decoder same closings c fields same_fields before s i)

    pub Reach-IsClosedOnce :
        {s t : State} (before : Option Schema) → Good before s → Reach s t → Good before t
    Reach-IsClosedOnce before i here = i
    Reach-IsClosedOnce before i (next r call) =
        Call-IsClosedOnce before call (Reach-IsClosedOnce before i r)
