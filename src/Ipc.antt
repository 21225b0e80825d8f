-- ===== src/Ipc.antt =====
-- The Arrow IPC streams of transport/ipc.py: what they ask of a stream of batches, of a stream of
-- bytes, and of the native encoder and decoder. `W` is the state that all of these keep.
pub mod Encoded
pub mod Decoded
use parqdb.Prelude.{ℕ, Bool, true, false, List, Option, some, none}
use parqdb.Python.Exceptions.{Result, ok, err}
use parqdb.Python.Action.{Action}

-- AsyncBatchStream of runtime/service.py; `none` is StopAsyncIteration.
pub record BatchStream (W Schema Batch : Type 0) : Type 0 where
  pub schema : Action W Schema
  pub anext : Action W (Option Batch)
  pub aclose : Action W (Unit {0})

-- An item of an iterator that should give bytes.
pub data Item : Type 0 where
  chunk : List ℕ → Item
  other : Item

-- `aclose` is absent where the iterator has no such attribute.
pub record ByteStream (W : Type 0) : Type 0 where
  pub anext : Action W (Option Item)
  pub aclose : Option (Action W (Unit {0}))

-- _IpcEncoder
pub record Encoder (W Schema Batch : Type 0) : Type 0 where
  pub create : Schema → ℕ → Action W (Unit {0})
  pub start : Action W (List (List ℕ))
  pub write : Batch → Action W (List (List ℕ))
  pub finish : Action W (List (List ℕ))

-- _IpcDecoder: `push` returns a schema, a batch, and whether it holds more.
pub record Decoder (W Schema Batch : Type 0) : Type 0 where
  pub create : ℕ → Action W (Unit {0})
  pub push : List ℕ → Action W (Option Schema × Option Batch × Bool)
  pub finish : Action W (Unit {0})

-- What a call of __anext__ on fuel comes to: `none` is a loop that is still running, and `ok none`
-- StopAsyncIteration.
abbrev pub Progress : Type 0 → Type 0 → Type 0
Progress S A = Option (Result (Option A) × S)

-- After a turn of its loop, which tells whether it goes on.
unfoldable pub resumed : {S A : Type 0} → (S → Progress S A) → Result Bool → S → Progress S A
resumed loop (ok true) s = loop s
resumed loop (ok false) s = some (ok none, s)
resumed loop (err e) s = some (err e, s)
