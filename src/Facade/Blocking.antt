-- ===== src/Facade/Blocking.antt =====
-- The blocking Session of facade.py with its bridge, and connect, which makes them. `A` is the state
-- of the asynchronous session and its transport, whose operations are actions on it.
pub mod Stopping
use parqdb.Prelude.{
  ℕ, suc, Bool, true, false, List, [], ◌∷◌, ◌≡◌, refl, sym, ap, ◌∙◌, subst, arith, if_both,
  if◌then◌else◌,
}
use parqdb.Python.Exceptions.{
  Result, Exception, ok, err, raise, runtime_error, unsupported_operation_error,
}
use parqdb.Python.Action.{Action, after}

-- _BlockingBridge; `stops` counts the stops of its event loop.
pub record BlockingBridge : Type 0 where
  pub closed : Bool
  pub stops : ℕ

-- Session; the readers are those of the set.
pub record Session (A Reader : Type 0) : Type 0 where
  pub closed : Bool
  pub readers : List Reader
  pub bridge : BlockingBridge
  pub async : A

abbrev pub session_closed : Exception
session_closed = record { kind = runtime_error; message = "session is closed" }

-- _BlockingBridge.close
unfoldable pub bridge_close : BlockingBridge → BlockingBridge
bridge_close b = if b.closed then b else record { closed = true; stops = suc b.stops }

abbrev pub new_bridge : BlockingBridge
new_bridge = record { closed = false; stops = 0 }

module _ {A Reader : Type 0} where
  -- _BlockingBridge.run
  unfoldable pub bridge_run : {B : Type 0} → Action A B → Action (Session A Reader) B
  bridge_run operation s =
      if s.bridge.closed
      then (err session_closed, s)
      else ((operation s.async).0, record s { async = (operation s.async).1 })

  -- _run_sync
  unfoldable pub run_sync : {B : Type 0} → Action A B → Action (Session A Reader) B
  run_sync operation s = if s.closed then (err session_closed, s) else bridge_run operation s

  -- A direct use of the asynchronous session, past _run_sync and the bridge, as that of
  -- datafusion_context.
  unfoldable pub direct : {B : Type 0} → Action A B → Action (Session A Reader) B
  direct operation s = ((operation s.async).0, record s { async = (operation s.async).1 })

  -- What needs _embedded_host: root, warehouse, maintenance and the page cache.
  unfoldable pub embedded : {B : Type 0} → (A → Bool) → Action A B → Action (Session A Reader) B
  embedded is_embedded operation s =
      if is_embedded s.async
      then direct operation s
      else (raise unsupported_operation_error "operation is available only in embedded mode", s)

  abbrev pub add_reader : Reader → Action (Session A Reader) Reader
  add_reader reader s = (ok reader, record s { readers = reader ∷ s.readers })

  module _ {Query Stream : Type 0} (open_stream : Query → Action A Stream)
      (is_arrow : Stream → Bool) (from_stream from_batches : Stream → Action A Reader) where
    -- The reader that PyArrow makes of an Arrow stream, or of the batches of another one.
    abbrev pub reader_of : Stream → Action A Reader
    reader_of opened = if is_arrow opened then from_stream opened else from_batches opened

    -- Session.stream
    unfoldable pub stream : Query → Action (Session A Reader) Reader
    stream query s =
        after (run_sync (open_stream query) s).0 (run_sync (open_stream query) s).1 (λ opened t.
          after (direct (reader_of opened) t).0 (direct (reader_of opened) t).1 add_reader)

  -- The rest of connect, after what connect_async did.
  unfoldable pub connected : Result (Unit {0}) → A → Result (Session A Reader) × BlockingBridge
  unfolding bridge_close
  connected (ok done) a =
      (ok (record { closed = false; readers = []; bridge = new_bridge; async = a }), new_bridge)
  connected (err e) a = (err e, bridge_close new_bridge)

  -- connect, with connect_async as `opening`; its second result is the bridge that it made.
  unfoldable pub connect : Action A (Unit {0}) → A → Result (Session A Reader) × BlockingBridge
  unfolding connected
  connect opening a = connected (opening a).0 (opening a).1

  module _ (close_reader : Reader → Action A (Unit {0})) (close_async : Action A (Unit {0})) where
    -- `for reader in list(self._readers): reader.close()`
    unfoldable pub close_readers : List Reader → Action (Session A Reader) (Unit {0})
    close_readers [] s = (ok tt, s)
    close_readers (reader ∷ readers) s =
        after (close_reader reader s.async).0 (record s { async = (close_reader reader s.async).1 })
          (λ _. close_readers readers)

    -- What `close` tries.
    unfoldable pub closing : Action (Session A Reader) (Unit {0})
    unfolding close_readers
    closing s =
        after (close_readers s.readers s).0 (close_readers s.readers s).1
          (λ _ t. bridge_run close_async (record t { readers = [] }))

    -- Session.close
    unfoldable pub close : Action (Session A Reader) (Unit {0})
    unfolding closing
    close s = if s.closed then (ok tt, s) else (
      (closing s).0,
      record (closing s).1 { closed = true; bridge = bridge_close (closing s).1.bridge },
    )
