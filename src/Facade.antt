-- ===== src/Facade.antt =====
-- AsyncSession and AsyncResultStream of facade.py. A result stream is an object with a number, under
-- which the session's set and the caller hold it; `W` is the state behind the transport.
pub mod Streams
pub mod Closing
pub mod Reached
pub mod Connect
pub mod Vectors
pub mod Batches
pub mod Blocking
use parqdb.Prelude.{
  ℕ, suc, ◌+◌, Bool, true, false, List, [], ◌∷◌, Option, some, none, eqb, if◌then◌else◌,
}
use parqdb.Python.Exceptions.{Result, ok, err}
use parqdb.Python.Action.{Action, after, ◌>>=◌, ◌>>◌}
use parqdb.Server.Service.{Query}

-- What the session asks of its transport and of a stream of batches; `none` is StopAsyncIteration.
pub record Transport (W Handle Schema Batch : Type 0) : Type 0 where
  pub stream : Query → Action W Handle
  pub schema : Handle → Action W Schema
  pub anext : Handle → Action W (Option Batch)
  pub aclose : Handle → Action W (Unit {0})
  pub close : Action W (Unit {0})

-- AsyncResultStream; `registered` tells that `_on_close` is not None.
pub record ResultStream (Handle : Type 0) : Type 0 where
  pub handle : Handle
  pub closed : Bool
  pub registered : Bool

-- AsyncSession, and the result streams that it has made.
pub record AsyncSession (W Handle : Type 0) : Type 0 where
  pub closed : Bool
  pub streams : List ℕ
  pub objects : ℕ → Option (ResultStream Handle)
  pub fresh : ℕ
  pub transport : W

unfoldable pub new_session : {W Handle : Type 0} → W → AsyncSession W Handle
new_session w = record {
  closed = false;
  streams = [];
  objects = λ _. none;
  fresh = 0;
  transport = w;
}

-- set.add and set.discard
unfoldable pub discard : ℕ → List ℕ → List ℕ
discard id [] = []
discard id (j ∷ ids) = let rest = discard id ids in if eqb j id then rest else j ∷ rest

abbrev pub update :
    {Handle : Type 0}
    → ℕ
    → Option (ResultStream Handle)
    → (ℕ → Option (ResultStream Handle))
    → ℕ
    → Option (ResultStream Handle)
update id o objects j = if eqb id j then o else objects j

module _ {W Handle : Type 0} where
  abbrev pub behind : {A : Type 0} → Action W A → Action (AsyncSession W Handle) A
  behind m s = ((m s.transport).0, record s { transport = (m s.transport).1 })

  -- AsyncResultStream(…), and `self._streams.add(stream)`; the object's number.
  add_stream : Handle → Action (AsyncSession W Handle) ℕ
  add_stream handle s = (
    ok s.fresh,
    record s {
      streams = s.fresh ∷ s.streams;
      objects =
          update s.fresh (some (record { handle = handle; closed = false; registered = true }))
            s.objects;
      fresh = suc s.fresh;
    },
  )

  -- `on_close, self._on_close = self._on_close, None`, and the call of on_close.
  release : ℕ → ResultStream Handle → AsyncSession W Handle → AsyncSession W Handle
  release id o s =
      if o.registered
      then record s {
        objects = update id (some (record o { closed = true; registered = false })) s.objects;
        streams = discard id s.streams;
      }
      else s

  abbrev mark_closed : ℕ → ResultStream Handle → AsyncSession W Handle → AsyncSession W Handle
  mark_closed id o s = record s {
    objects = update id (some (record o { closed = true })) s.objects;
  }

module _ {W Handle Schema Batch : Type 0} (transport : Transport W Handle Schema Batch) where
  unfoldable pub stream : Query → Action (AsyncSession W Handle) ℕ
  unfolding add_stream
  stream q = do
    handle ← behind (transport.stream q)
    _ ← behind (transport.schema handle)
    add_stream handle

  close_object : ℕ → ResultStream Handle → Action (AsyncSession W Handle) (Unit {0})
  unfolding release
  close_object id o s =
      if o.closed
      then (ok tt, s)
      else (let t = mark_closed id o s in
          (
            (transport.aclose o.handle t.transport).0,
            release id o (record t { transport = (transport.aclose o.handle t.transport).1 }),
          ))

  -- AsyncResultStream.aclose; a number without an object is not the caller's to give.
  unfoldable pub aclose : ℕ → Action (AsyncSession W Handle) (Unit {0})
  unfolding close_object
  aclose id s = elim (s.objects id) [ none ↦ (ok tt, s) | some o ↦ close_object id o s ]

  ended : ℕ → Result (Option Batch) → Action (AsyncSession W Handle) (Option Batch)
  ended id (ok (some batch)) s = (ok (some batch), s)
  ended id (ok none) s = after (aclose id s).0 (aclose id s).1 (λ _ t. (ok none, t))
  ended id (err e) s = (err e, s)

  next_batch : ℕ → ResultStream Handle → Action (AsyncSession W Handle) (Option Batch)
  unfolding ended
  next_batch id o s =
      if o.closed
      then (ok none, s)
      else ended id (transport.anext o.handle s.transport).0 (behind (transport.anext o.handle) s).1

  -- AsyncResultStream.__anext__
  unfoldable pub anext : ℕ → Action (AsyncSession W Handle) (Option Batch)
  unfolding next_batch
  anext id s = elim (s.objects id) [ none ↦ (ok none, s) | some o ↦ next_batch id o s ]

  -- `for stream in list(self._streams): await stream.aclose()`
  unfoldable pub aclose_all : List ℕ → Action (AsyncSession W Handle) (Unit {0})
  aclose_all [] s = (ok tt, s)
  aclose_all (id ∷ ids) s = after (aclose id s).0 (aclose id s).1 (λ _. aclose_all ids)

  unfoldable pub close : Action (AsyncSession W Handle) (Unit {0})
  close s =
      if s.closed
      then (ok tt, s)
      else (let t = record s { closed = true } in
          after (aclose_all s.streams t).0 (aclose_all s.streams t).1
            (λ _ u. behind transport.close (record u { streams = [] })))
