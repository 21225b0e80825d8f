-- ===== src/Ipc/Decoded.antt =====
-- _DecodedIpcStream and decode_ipc_stream of transport/ipc.py: chunks of bytes in, batches out.
-- `same` is the comparison of PyArrow's schemas, `not schema != known`, which leaves metadata out.
pub mod Turns
pub mod Closing
pub mod Opening
use parqdb.Prelude.{
  ℕ, zero, suc, ◌*◌, Bool, true, false, not, ◌&&◌, List, [], ◌∷◌, ◌++◌, Option, some, none,
  if◌then◌else◌,
}
use parqdb.Python.Exceptions.{Result, ok, err, raise, runtime_error, value_error, type_error}
use parqdb.Python.Action.{Action, lift, ◌>>=◌, ◌>>◌}
use parqdb.Ipc.{ByteStream, Decoder, Item, chunk, other, Progress, resumed}

-- The stream, with the state of its source and its decoder.
pub record DecodedIpcStream (W Schema Batch : Type 0) : Type 0 where
  pub known : Option Schema
  pub pending : List Batch
  pub decoder_buffered : Bool
  pub input_finished : Bool
  pub closed : Bool
  pub outside : W

abbrev default_max_frame_bytes : ℕ
default_max_frame_bytes = 256 * 1024 * 1024

-- _close_async_iterator
unfoldable pub close_async_iterator : {W : Type 0} → ByteStream W → Action W (Unit {0})
close_async_iterator source w = elim source.aclose [ none ↦ (ok tt, w) | some close ↦ close w ]

unfoldable pub schema : {W Schema Batch : Type 0} → DecodedIpcStream W Schema Batch → Result Schema
schema s = elim s.known [
  | none ↦ raise runtime_error "Arrow IPC schema has not been decoded"
  | some known ↦ ok known
]

module _ {W Schema Batch : Type 0} (source : ByteStream W) (decoder : Decoder W Schema Batch)
    (same : Schema → Schema → Bool) where
  abbrev pub State : Type 0
  State = DecodedIpcStream W Schema Batch

  -- A call of the source or of the decoder.
  abbrev outward : {A : Type 0} → Action W A → Action State A
  outward m s = ((m s.outside).0, record s { outside = (m s.outside).1 })

  unfoldable pub aclose : Action State (Unit {0})
  aclose s =
      if s.closed
      then (ok tt, s)
      else (let t = record s { closed = true; pending = [] } in
          if s.input_finished then (ok tt, t) else outward (close_async_iterator source) t)

  -- `await self.aclose(); raise`.
  unfoldable pub fail : {A : Type 0} → Result A → Action State A
  fail e = aclose >> lift e

  unfoldable pub append_batch : Option Batch → Action State (Unit {0})
  append_batch none s = (ok tt, s)
  append_batch (some batch) s = (ok tt, record s { pending = s.pending ++ batch ∷ [] })

  -- That the schemas differ, where the stream has one.
  unfoldable pub differs : Option Schema → Schema → Bool
  differs none new = false
  differs (some known) new = not (same new known)

  unfoldable pub take_schema : Option Schema → Action State (Unit {0})
  take_schema none s = (ok tt, s)
  take_schema (some new) s =
      if differs s.known new
      then fail (raise value_error "Arrow IPC stream contains multiple schemas") s
      else (ok tt, record s { known = some new })

  unfoldable pub pushed : Result (Option Schema × Option Batch × Bool) → Action State (Unit {0})
  pushed (err e) = fail (err e)
  pushed (ok (new, batch, buffered)) =
      λ s. (take_schema new >> append_batch batch) (record s { decoder_buffered = buffered })

  unfoldable pub push : List ℕ → Action State (Unit {0})
  push bytes s = pushed (decoder.push bytes s.outside).0 (outward (decoder.push bytes) s).1

  unfoldable pub finished : Result (Unit {0}) → Action State (Unit {0})
  finished (err e) = fail (err e)
  finished (ok done) =
      λ s. outward (close_async_iterator source) (record s { input_finished = true })

  unfoldable pub received : Result (Option Item) → Action State (Unit {0})
  received (err e) = fail (err e)
  received (ok none) = λ s. finished (decoder.finish s.outside).0 (outward decoder.finish s).1
  received (ok (some other)) = fail (raise type_error "Arrow IPC byte stream must yield bytes")
  received (ok (some (chunk bytes))) = push bytes

  unfoldable pub read_next_chunk : Action State (Unit {0})
  read_next_chunk s =
      if s.decoder_buffered
      then push [] s
      else received (source.anext s.outside).0 (outward source.anext s).1

  -- A turn of the loop that waits until a batch is pending: whether it goes on, or the iteration
  -- is over.
  unfoldable pub turn : Action State Bool
  turn s = if s.input_finished then fail (ok false) s else (read_next_chunk >> lift (ok true)) s

  -- `popleft` if a batch is pending, and a turn of the loop if not.
  unfoldable pub popped : (State → Progress State Batch) → List Batch → State → Progress State Batch
  unfolding resumed
  popped loop (batch ∷ rest) s = some (ok (some batch), record s { pending = rest })
  popped loop [] s = resumed loop (turn s).0 (turn s).1

  -- The loop on fuel.
  unfoldable pub wait_pending : ℕ → State → Progress State Batch
  wait_pending zero s = none
  wait_pending (suc fuel) s = popped (wait_pending fuel) s.pending s

  unfoldable pub anext : ℕ → State → Progress State Batch
  anext fuel s = if s.closed then some (ok none, s) else wait_pending fuel s

  -- A turn of the loop that waits for the schema.
  unfoldable pub schema_turn : Action State (Unit {0})
  schema_turn s =
      if s.input_finished
      then fail (raise value_error "Arrow IPC stream ended before its schema") s
      else read_next_chunk s

  -- After such a turn.
  unfoldable pub after_turn :
      (State → Option (Result (Unit {0}) × State))
      → Result (Unit {0})
      → State
      → Option (Result (Unit {0}) × State)
  after_turn loop (err e) s = some (err e, s)
  after_turn loop (ok done) s = loop s

  unfoldable pub with_schema :
      (State → Option (Result (Unit {0}) × State))
      → Option Schema
      → State
      → Option (Result (Unit {0}) × State)
  with_schema loop (some known) s = some (ok tt, s)
  with_schema loop none s = after_turn loop (schema_turn s).0 (schema_turn s).1

  unfoldable pub read_schema : ℕ → State → Option (Result (Unit {0}) × State)
  read_schema zero s = none
  read_schema (suc fuel) s = with_schema (read_schema fuel) s.known s

  unfoldable pub new : W → State
  new w = record {
    known = none;
    pending = [];
    decoder_buffered = false;
    input_finished = false;
    closed = false;
    outside = w;
  }

  unfoldable pub created : ℕ → Result (Unit {0}) → W → Option (Result (Unit {0}) × State)
  created fuel (err e) w = some (err e, new w)
  created fuel (ok done) w = read_schema fuel (new w)

  -- decode_ipc_stream, on fuel; it returns the stream.
  unfoldable pub decode_ipc_stream : ℕ → ℕ → W → Option (Result (Unit {0}) × State)
  decode_ipc_stream fuel max_frame_bytes w =
      created fuel (decoder.create max_frame_bytes w).0 (decoder.create max_frame_bytes w).1
