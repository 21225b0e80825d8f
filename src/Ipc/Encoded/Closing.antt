-- ===== src/Ipc/Encoded/Closing.antt =====
-- However a consumer uses an encoding stream, its source is closed once.
use parqdb.Prelude.{ℕ, true, List, Option, some, none, ◌≡◌, arith, if◌then◌else◌, subst}
use parqdb.Python.Exceptions.{Result, ok, err}
use parqdb.Python.Action.{>>=-eq_ok}
use parqdb.Ipc.{BatchStream, Encoder}
use parqdb.Ipc.Encoded.{EncodedIpcStream, aclose, anext, encode_ipc_stream}
use parqdb.Ipc.Encoded.Turns.{
  Counts, IsClosedOnce, is_over, Settled, aclose-IsClosedOnce, aclose-over, anext-Settled,
}

-- That a call of __anext__ gave no chunk: it raised, StopAsyncIteration included.
abbrev pub IsStop : Result (Option (List ℕ)) → Type 0
IsStop (ok (some chunk)) = ⊥
IsStop (ok none) = Unit
IsStop (err e) = Unit

module _ {W Schema Batch : Type 0} (source : BatchStream W Schema Batch)
    (encoder : Encoder W Schema Batch) where
  -- A call by the consumer, whatever it returns or raises.
  pub data Call (s : EncodedIpcStream W) (t : EncodedIpcStream W) : Type 0 where
    call_anext :
        (fuel : ℕ) (r : Result (Option (List ℕ)))
        → anext source encoder fuel s ≡ some (r, t)
        → Call s t
    call_aclose : (r : Result (Unit {0})) → aclose source encoder s ≡ (r, t) → Call s t

  -- Any sequence of calls.
  pub data Reach (s : EncodedIpcStream W) : EncodedIpcStream W → Type 0 where
    here : Reach s s
    next : {t u : EncodedIpcStream W} → Reach s t → Call t u → Reach s u

  module _ (closings : W → ℕ) (c : Counts source encoder closings) where
    settled :
        (r : Result (Option (List ℕ))) (s : EncodedIpcStream W)
        → Settled source encoder closings c (some (r, s))
        → IsClosedOnce closings s
    unfolding Settled
    settled (ok (some chunk)) s h = h
    settled (ok none) s h = h.0
    settled (err e) s h = h.0

    stopped :
        (r : Result (Option (List ℕ))) (s : EncodedIpcStream W)
        → Settled source encoder closings c (some (r, s))
        → IsStop r
        → is_over s ≡ true
    unfolding Settled
    stopped (ok (some chunk)) s h e = elim e [ ]
    stopped (ok none) s h e = h.1
    stopped (err e) s h q = h.1

    Call-IsClosedOnce :
        {s t : EncodedIpcStream W} → Call s t → IsClosedOnce closings s → IsClosedOnce closings t
    Call-IsClosedOnce {s} {t} (call_anext fuel r e) i = settled r t (
        subst (Settled source encoder closings c) e
          (anext-Settled source encoder closings c fuel s i))
    Call-IsClosedOnce {s} {t} (call_aclose r e) i =
        subst (λ p. IsClosedOnce closings p.1) e (aclose-IsClosedOnce source encoder closings c s i)

    Reach-IsClosedOnce :
        {s t : EncodedIpcStream W} → IsClosedOnce closings s → Reach s t → IsClosedOnce closings t
    Reach-IsClosedOnce i here = i
    Reach-IsClosedOnce i (next r call) = Call-IsClosedOnce call (Reach-IsClosedOnce i r)

    encode_ipc_stream-IsClosedOnce :
        (n : ℕ) (w v : W) (s : EncodedIpcStream W)
        → closings w ≡ 0
        → encode_ipc_stream source encoder n w ≡ (ok s, v)
        → IsClosedOnce closings s
    unfolding encode_ipc_stream
    encode_ipc_stream-IsClosedOnce n w v s z h =
        let (schema, _, h1) = >>=-eq_ok source.schema _ w h in
        let w1 = (source.schema w).1 in
        let (_, _, h2) = >>=-eq_ok (encoder.create schema n) _ w1 h1 in
        let w2 = (encoder.create schema n w1).1 in
        let (initial, _, h3) = >>=-eq_ok encoder.start _ w2 h2 in
        let w3 = (encoder.start w2).1 in
        let count : closings w3 ≡ 0 =
          omega (arith, z, c.schema_keeps w, c.create_keeps schema n w1, c.start_keeps w2) in
        ground arith

    -- In every state that a consumer reaches from a new encoding stream by any calls of
    -- __anext__ and aclose, whatever they return or raise, the source has been closed once if
    -- the stream is closed or has read all its input and not at all if not, and a call of
    -- aclose leaves it closed once.
    pub Reach-closed_once :
        (n : ℕ) (w v : W) (s t : EncodedIpcStream W)
        → closings w ≡ 0
        → encode_ipc_stream source encoder n w ≡ (ok s, v)
        → Reach s t
        → (closings t.outside ≡ (if is_over t then 1 else 0))
          × (closings (aclose source encoder t).1.outside ≡ 1)
    Reach-closed_once n w v s t z h r =
        let i = Reach-IsClosedOnce (encode_ipc_stream-IsClosedOnce n w v s z h) r in
        (
          i.count,
          rw (aclose-over source encoder closings c t) at
              (aclose-IsClosedOnce source encoder closings c t i).count,
        )

    -- If in a state that a consumer reaches from a new encoding stream a call of __anext__ ends
    -- without a chunk, be it by StopAsyncIteration or by any other exception, the source has
    -- been closed exactly once.
    pub anext-closed_once :
        (fuel n : ℕ) (w v : W) (s t u : EncodedIpcStream W) (r : Result (Option (List ℕ)))
        → closings w ≡ 0
        → encode_ipc_stream source encoder n w ≡ (ok s, v)
        → Reach s t
        → anext source encoder fuel t ≡ some (r, u)
        → IsStop r
        → closings u.outside ≡ 1
    anext-closed_once fuel n w v s t u r z h reach e stop =
        let i = Reach-IsClosedOnce (encode_ipc_stream-IsClosedOnce n w v s z h) reach in
        let k =
          subst (Settled source encoder closings c) e
            (anext-Settled source encoder closings c fuel t i) in
        rw (stopped r u k stop) at (settled r u k).count
