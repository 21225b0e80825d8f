-- ===== src/Ipc/Encoded/Turns.antt =====
-- What each method of an encoding stream does to the count of the closings of its source.
use parqdb.Prelude.{
  ℕ, zero, suc, ◌+◌, Bool, true, false, ◌||◌, List, [], ◌∷◌, ◌++◌, Option, some, none, ◌≡◌, arith,
  if_both, if◌then◌else◌,
}
use parqdb.Python.Exceptions.{Result, ok, err}
use parqdb.Python.Action.{after, lift}
use parqdb.Ipc.{BatchStream, Encoder, Progress, resumed}
use parqdb.Ipc.Encoded.{
  EncodedIpcStream, aclose, turn, popped, wait_pending, anext, received, written,
}

-- How often the source has been closed: its aclose is counted, whether it raises or not, and no
-- other call is.
pub record Counts {W Schema Batch : Type 0} (source : BatchStream W Schema Batch)
    (encoder : Encoder W Schema Batch) (closings : W → ℕ) : Type 0 where
  pub schema_keeps : (w : W) → closings (source.schema w).1 ≡ closings w
  pub anext_keeps : (w : W) → closings (source.anext w).1 ≡ closings w
  pub aclose_counts : (w : W) → closings (source.aclose w).1 ≡ closings w + 1
  pub create_keeps :
      (schema : Schema) (n : ℕ) (w : W) → closings (encoder.create schema n w).1 ≡ closings w
  pub start_keeps : (w : W) → closings (encoder.start w).1 ≡ closings w
  pub write_keeps : (batch : Batch) (w : W) → closings (encoder.write batch w).1 ≡ closings w
  pub finish_keeps : (w : W) → closings (encoder.finish w).1 ≡ closings w

-- That the stream needs its source no more.
abbrev pub is_over : {W : Type 0} → EncodedIpcStream W → Bool
is_over s = s.closed || s.input_finished

-- The source is closed once if the stream is over, and not at all if not.
pub record IsClosedOnce {W : Type 0} (closings : W → ℕ) (s : EncodedIpcStream W) : Type 0 where
  pub count : closings s.outside ≡ (if is_over s then 1 else 0)
  pub nothing_pending : s.closed ≡ true → s.pending ≡ []

-- What a turn of the loop leaves: a state to go on from, or an iteration that is over.
abbrev Follows : {W : Type 0} → Result Bool → EncodedIpcStream W → Type 0
Follows (ok true) s = s.closed ≡ false
Follows (ok false) s = is_over s ≡ true
Follows (err e) s = is_over s ≡ true

module _ {W Schema Batch : Type 0} (source : BatchStream W Schema Batch)
    (encoder : Encoder W Schema Batch) (closings : W → ℕ) (c : Counts source encoder closings) where
  pub aclose-IsClosedOnce :
      (s : EncodedIpcStream W)
      → IsClosedOnce closings s
      → IsClosedOnce closings (aclose source encoder s).1
  unfolding aclose
  aclose-IsClosedOnce s i = ground (arith, c.aclose_counts s.outside)

  pub aclose-over : (s : EncodedIpcStream W) → is_over (aclose source encoder s).1 ≡ true
  unfolding aclose
  aclose-over s = ground arith

  moved-IsClosedOnce :
      (s : EncodedIpcStream W) (w : W)
      → closings w ≡ closings s.outside
      → IsClosedOnce closings s
      → IsClosedOnce closings (record s { outside = w })
  moved-IsClosedOnce s w e i = ground arith

  IsTurned : Result Bool × EncodedIpcStream W → Type 0
  IsTurned (r, s) = IsClosedOnce closings s × Follows r s

  closed_after :
      (x : Result Bool) (r : Result (Unit {0})) (s : EncodedIpcStream W)
      → is_over s ≡ true
      → ((t : EncodedIpcStream W) → is_over t ≡ true → Follows x t)
      → IsClosedOnce closings s
      → IsTurned (after r s (λ _. lift x))
  unfolding IsTurned
  closed_after x (ok done) s o f i = (i, f s o)
  closed_after x (err e) s o f i = (i, o)

  aclose-IsTurned :
      (x : Result Bool) (s : EncodedIpcStream W)
      → ((t : EncodedIpcStream W) → is_over t ≡ true → Follows x t)
      → IsClosedOnce closings s
      → IsTurned (after (aclose source encoder s).0 (aclose source encoder s).1 (λ _. lift x))
  aclose-IsTurned x s f i =
      closed_after x _ (aclose source encoder s).1 (aclose-over s) f (aclose-IsClosedOnce s i)

  written-IsTurned :
      (r : Result (List (List ℕ))) (s : EncodedIpcStream W)
      → s.closed ≡ false
      → IsClosedOnce closings s
      → IsTurned (written source encoder r s)
  unfolding written IsTurned
  written-IsTurned (ok chunks) s open_ i = (ground arith, open_)
  written-IsTurned (err e) s open_ i = aclose-IsTurned (err e) s (λ t o. o) i

  enqueue-IsTurned :
      (r : Result (List (List ℕ))) (s : EncodedIpcStream W)
      → s.closed ≡ false
      → is_over s ≡ true
      → IsClosedOnce closings s
      → IsTurned (after r s (λ chunks t. (ok true, record t { pending = t.pending ++ chunks })))
  unfolding IsTurned
  enqueue-IsTurned (ok chunks) s p o i = (ground arith, p)
  enqueue-IsTurned (err e) s p o i = (i, o)

  finish-IsTurned :
      (r : Result (Unit {0})) (s : EncodedIpcStream W)
      → s.closed ≡ false
      → is_over s ≡ true
      → IsClosedOnce closings s
      → IsTurned (
          after r s (λ _ t.
            after
              (encoder.finish t.outside).0
              (record t { outside = (encoder.finish t.outside).1 })
              (λ chunks u. (ok true, record u { pending = u.pending ++ chunks }))))
  unfolding IsTurned
  finish-IsTurned (err e) s p o i = (i, o)
  finish-IsTurned (ok done) s p o i =
      let w = (encoder.finish s.outside).1 in
      enqueue-IsTurned (encoder.finish s.outside).0 (record s { outside = w }) p o
        (moved-IsClosedOnce s w (c.finish_keeps s.outside) i)

  received-IsTurned :
      (r : Result (Option Batch)) (s : EncodedIpcStream W)
      → is_over s ≡ false
      → IsClosedOnce closings s
      → IsTurned (received source encoder r s)
  unfolding received
  received-IsTurned (err e) s p i = aclose-IsTurned (err e) s (λ t o. o) i
  received-IsTurned (ok (some batch)) s p i =
      let w = (encoder.write batch s.outside).1 in
      written-IsTurned (encoder.write batch s.outside).0 (record s { outside = w }) (ground arith)
        (moved-IsClosedOnce s w (c.write_keeps batch s.outside) i)
  received-IsTurned (ok none) s p i =
      let w = (source.aclose s.outside).1 in
      finish-IsTurned (source.aclose s.outside).0 (record s { outside = w; input_finished = true })
        (ground arith) (ground arith) (ground (arith, c.aclose_counts s.outside))

  turn-IsTurned :
      (s : EncodedIpcStream W)
      → s.closed ≡ false
      → IsClosedOnce closings s
      → IsTurned (turn source encoder s)
  unfolding turn
  turn-IsTurned s p i =
      let w = (source.anext s.outside).1 in
      if_both IsTurned s.input_finished (λ e. aclose-IsTurned (ok false) s (λ t o. o) i)
        (λ e.
          received-IsTurned (source.anext s.outside).0 (record s { outside = w }) (ground arith)
            (moved-IsClosedOnce s w (c.anext_keeps s.outside) i))

  -- What a call of anext leaves: the invariant, and without a chunk an iteration that is over.
  unfoldable pub Settled : Progress (EncodedIpcStream W) (List ℕ) → Type 0
  Settled none = Unit
  Settled (some (ok (some chunk), s)) = IsClosedOnce closings s
  Settled (some (ok none, s)) = IsClosedOnce closings s × (is_over s ≡ true)
  Settled (some (err e, s)) = IsClosedOnce closings s × (is_over s ≡ true)

  module _ (loop : EncodedIpcStream W → Progress (EncodedIpcStream W) (List ℕ))
      (settled : (s : EncodedIpcStream W)
        → s.closed ≡ false
        → IsClosedOnce closings s
        → Settled (loop s)) where
    resumed-Settled :
        (r : Result Bool) (s : EncodedIpcStream W) → IsTurned (r, s) → Settled (resumed loop r s)
    unfolding IsTurned Settled resumed
    resumed-Settled (ok true) s (i, p) = settled s p i
    resumed-Settled (ok false) s t = t
    resumed-Settled (err e) s t = t

    popped-Settled :
        (pending : List (List ℕ)) (s : EncodedIpcStream W)
        → s.closed ≡ false
        → IsClosedOnce closings s
        → Settled (popped source encoder loop pending s)
    unfolding popped
    popped-Settled (chunk ∷ rest) s p i = unfold Settled in ground arith
    popped-Settled [] s p i = resumed-Settled _ (turn source encoder s).1 (turn-IsTurned s p i)

  wait_pending-Settled :
      (fuel : ℕ) (s : EncodedIpcStream W)
      → s.closed ≡ false
      → IsClosedOnce closings s
      → Settled (wait_pending source encoder fuel s)
  unfolding wait_pending
  wait_pending-Settled zero s p i = unfold Settled in tt
  wait_pending-Settled (suc fuel) s p i =
      popped-Settled (wait_pending source encoder fuel) (wait_pending-Settled fuel) s.pending s p i

  pub anext-Settled :
      (fuel : ℕ) (s : EncodedIpcStream W)
      → IsClosedOnce closings s
      → Settled (anext source encoder fuel s)
  unfolding anext
  anext-Settled fuel s i =
      if_both Settled s.closed (λ e. unfold Settled in (i, ground arith))
        (λ e. wait_pending-Settled fuel s e i)
