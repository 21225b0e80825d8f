-- ===== src/Facade/Batches.antt =====
-- The iterator of facade.py over a result stream, through the bridge of a blocking session.
use parqdb.Prelude.{Bool, true, Option, some, none, ◌≡◌, refl, sym, ap, ◌∙◌, if_both, if◌then◌else◌}
use parqdb.Python.Exceptions.{Result, ok, err}
use parqdb.Python.Action.{Action}
use parqdb.Facade.Blocking.{Session, bridge_run}

-- _BlockingBatchIterator over a session.
pub record Iterating (A Reader : Type 0) : Type 0 where
  pub closed : Bool
  pub session : Session A Reader

module _ {A Reader Batch : Type 0} (anext : Action A (Option Batch))
    (aclose : Action A (Unit {0})) where
  bridged : {B : Type 0} → Action A B → Action (Iterating A Reader) B
  bridged operation i = (
    (bridge_run operation i.session).0,
    record i { session = (bridge_run operation i.session).1 },
  )

  -- close
  unfoldable pub close_iterator : Action (Iterating A Reader) (Unit {0})
  unfolding bridged
  close_iterator i = if i.closed then (ok tt, i) else bridged aclose (record i { closed = true })

  finished : Result (Unit {0}) → Action (Iterating A Reader) (Option Batch)
  finished (ok done) i = (ok none, i)
  finished (err e) i = (err e, i)

  -- `self.close()` and the end of the iteration, after StopAsyncIteration.
  finish : Option Batch → Action (Iterating A Reader) (Option Batch)
  unfolding close_iterator finished
  finish (some batch) i = (ok (some batch), i)
  finish none i = finished (close_iterator i).0 (close_iterator i).1

  after_anext : Result (Option Batch) → Action (Iterating A Reader) (Option Batch)
  unfolding finish
  after_anext (ok batch) i = finish batch i
  after_anext (err e) i = (err e, i)

  -- __next__; StopIteration is `none`.
  unfoldable pub next : Action (Iterating A Reader) (Option Batch)
  unfolding after_anext bridged
  next i = if i.closed then (ok none, i) else after_anext (bridged anext i).0 (bridged anext i).1

  next-closed : (i : Iterating A Reader) → i.closed ≡ true → next i ≡ (ok none, i)
  unfolding next
  next-closed i e = rw e refl

  bridged-closed :
      {B : Type 0} (operation : Action A B) (i : Iterating A Reader)
      → (bridged operation i).1.closed ≡ i.closed
  unfolding bridged
  bridged-closed operation i = refl

  close_iterator-closed : (i : Iterating A Reader) → (close_iterator i).1.closed ≡ true
  unfolding close_iterator
  close_iterator-closed i =
      if_both (λ (p : Result (Unit {0}) × Iterating A Reader). p.1.closed ≡ true) i.closed (λ e. e)
        (λ _. refl)

  finished-closed :
      (r : Result (Unit {0})) (i : Iterating A Reader)
      → i.closed ≡ true
      → (finished r i).1.closed ≡ true
  unfolding finished
  finished-closed (ok done) i c = c
  finished-closed (err x) i c = c

  finish-closed :
      (i : Iterating A Reader) (batch : Option Batch)
      → (finish batch i).0 ≡ ok none
      → (finish batch i).1.closed ≡ true
  unfolding finish
  finish-closed i (some batch) e = cc
  finish-closed i none e =
      finished-closed (close_iterator i).0 (close_iterator i).1 (close_iterator-closed i)

  after_anext-closed :
      (r : Result (Option Batch)) (i : Iterating A Reader)
      → (after_anext r i).0 ≡ ok none
      → (after_anext r i).1.closed ≡ true
  unfolding after_anext
  after_anext-closed (ok batch) i e = finish-closed i batch e
  after_anext-closed (err x) i e = cc

  next-eq_none : (i : Iterating A Reader) → (next i).0 ≡ ok none → (next i).1.closed ≡ true
  unfolding next
  next-eq_none i =
      if_both
        (λ (p : Result (Option Batch) × Iterating A Reader). p.0 ≡ ok none → p.1.closed ≡ true)
        i.closed (λ c _. c) (λ _. after_anext-closed (bridged anext i).0 (bridged anext i).1)

  -- Once the iteration has ended, __next__ ends it again and leaves the state as it is.
  pub next-next : (i j : Iterating A Reader) → next i ≡ (ok none, j) → next j ≡ (ok none, j)
  next-next i j e = next-closed j (ap (λ p. p.1.closed) (sym e) ∙ next-eq_none i (ap (λ p. p.0) e))
