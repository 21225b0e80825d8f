-- ===== src/Ipc/Encoded.antt =====
-- _EncodedIpcStream and encode_ipc_stream of transport/ipc.py: batches in, chunks of bytes out.
pub mod Turns
pub mod Closing
pub mod Draining
use parqdb.Prelude.{
  ℕ, zero, suc, ◌*◌, Bool, true, false, List, [], ◌∷◌, ◌++◌, Option, some, none, if◌then◌else◌,
}
use parqdb.Python.Exceptions.{Result, ok, err}
use parqdb.Python.Action.{Action, lift, ◌>>=◌, ◌>>◌}
use parqdb.Ipc.{BatchStream, Encoder, Progress, resumed}

-- The stream, with the state of its source and its encoder.
pub record EncodedIpcStream (W : Type 0) : Type 0 where
  pub pending : List (List ℕ)
  pub input_finished : Bool
  pub closed : Bool
  pub outside : W

-- A call of the source or of the encoder.
abbrev outward : {W A : Type 0} → Action W A → Action (EncodedIpcStream W) A
outward m s = ((m s.outside).0, record s { outside = (m s.outside).1 })

abbrev enqueue : {W : Type 0} → List (List ℕ) → Action (EncodedIpcStream W) Bool
enqueue chunks s = (ok true, record s { pending = s.pending ++ chunks })

abbrev default_chunk_bytes : ℕ
default_chunk_bytes = 64 * 1024

module _ {W Schema Batch : Type 0} (source : BatchStream W Schema Batch)
    (encoder : Encoder W Schema Batch) where
  unfoldable pub encode_ipc_stream : ℕ → W → Result (EncodedIpcStream W) × W
  encode_ipc_stream max_chunk_bytes = do
    schema ← source.schema
    encoder.create schema max_chunk_bytes
    initial ← encoder.start
    λ w. (ok (record { pending = initial; input_finished = false; closed = false; outside = w }), w)

  unfoldable pub aclose : Action (EncodedIpcStream W) (Unit {0})
  aclose s =
      if s.closed
      then (ok tt, s)
      else (let t = record s { closed = true; pending = [] } in
          if s.input_finished then (ok tt, t) else outward source.aclose t)

  written : Result (List (List ℕ)) → Action (EncodedIpcStream W) Bool
  written (ok chunks) = enqueue chunks
  written (err e) = aclose >> lift (err e)

  received : Result (Option Batch) → Action (EncodedIpcStream W) Bool
  received (err e) = aclose >> lift (err e)
  received (ok (some batch)) =
      λ s. written (encoder.write batch s.outside).0 (outward (encoder.write batch) s).1
  received (ok none) = λ s.
      (do outward source.aclose; chunks ← outward encoder.finish; enqueue chunks)
        (record s { input_finished = true })

  -- A turn of the loop that waits until a chunk is pending: whether the loop goes on, or the
  -- iteration is over.
  unfoldable pub turn : Action (EncodedIpcStream W) Bool
  unfolding received written
  turn s =
      if s.input_finished
      then (aclose >> lift (ok false)) s
      else received (source.anext s.outside).0 (outward source.anext s).1

  -- `popleft` if a chunk is pending, and a turn of the loop if not.
  popped :
      (EncodedIpcStream W → Progress (EncodedIpcStream W) (List ℕ))
      → List (List ℕ)
      → EncodedIpcStream W
      → Progress (EncodedIpcStream W) (List ℕ)
  unfolding resumed
  popped loop (chunk ∷ rest) s = some (ok (some chunk), record s { pending = rest })
  popped loop [] s = resumed loop (turn s).0 (turn s).1

  -- The loop on fuel.
  unfoldable pub wait_pending : ℕ → EncodedIpcStream W → Progress (EncodedIpcStream W) (List ℕ)
  unfolding popped
  wait_pending zero s = none
  wait_pending (suc fuel) s = popped (wait_pending fuel) s.pending s

  unfoldable pub anext : ℕ → EncodedIpcStream W → Progress (EncodedIpcStream W) (List ℕ)
  anext fuel s = if s.closed then some (ok none, s) else wait_pending fuel s
