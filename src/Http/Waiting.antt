-- ===== src/Http/Waiting.antt =====
-- wait_for_index of transport/http.py. Times are whole nanoseconds, in which the clock counts, every
-- timedelta is exact and so is each of the loop's delays; the rounding of Python's floats is left
-- out. The clock, the sleep and the poll (index_status under asyncio.timeout) are parameters.
pub mod Readiness
pub mod Deadline
use parqdb.Prelude.{
  ℕ, zero, suc, ◌+◌, ◌-◌, ◌*◌, ◌/◌, ltb, String, Bool, true, false, List, [], ◌∷◌, Option, some,
  none, ◌==◌, if◌then◌else◌,
}
use parqdb.Python.Exceptions.{
  Result, ok, err, raise, Exception, is_instance, timeout_error, value_error,
}
use parqdb.Python.Int.{ℤ, pos, negsuc}
use Prim.Native.Nat.{min}
use parqdb.Text.Chars.{format}
use parqdb.Status.{IndexStatus}
use parqdb.Errors.{raise_remote_build_error}

-- Nanoseconds: 0.05 s, and min(delay * 1.5, 1.0).
abbrev pub first_delay : ℕ
first_delay = 50_000_000

abbrev pub next_delay : ℕ → ℕ
next_delay delay = min (delay * 3 / 2) 1_000_000_000

-- remaining > 0
abbrev pub is_left : ℕ → Bool
is_left remaining = ltb 0 remaining

abbrev pub timed_out : String → Result (Unit {0})
timed_out index = raise timeout_error (format ("timed out waiting for index: " ∷ index ∷ []))

-- What a status ends the wait with; `none` is that it goes on.
unfoldable pub decide : String → IndexStatus → Option (Result (Unit {0}))
decide index status = elim status.error [
  | some message ↦ some (err (raise_remote_build_error status.error_code message))
  | none ↦
      if status.state == "ready"
      then some (ok tt)
      else if status.state == "failed"
      then some (
          err (
            raise_remote_build_error status.error_code
              (format ("index build failed: " ∷ index ∷ []))))
      else none
]

abbrev pub Outcome : Type 0 → Type 0
Outcome S = Option (Result (Unit {0}) × S)

-- A TimeoutError of the poll is said to be the wait's.
abbrev poll_error : String → Exception → Result (Unit {0})
poll_error index e = if is_instance e.kind timeout_error then timed_out index else err e

abbrev pub after_status :
    {S : Type 0} → Option (Result (Unit {0})) → S → (S → Outcome S) → Outcome S
after_status (some r) s again = some (r, s)
after_status none s again = again s

abbrev pub after_poll : {S : Type 0} → String → Result IndexStatus × S → (S → Outcome S) → Outcome S
after_poll index (ok status, s) again = after_status (decide index status) s again
after_poll index (err e, s) again = some (poll_error index e, s)

module _ {S : Type 0} (monotonic : S → ℕ × S) (sleep : ℕ → S → S)
    (poll : ℕ → S → Result IndexStatus × S) (index : String) where
  -- Goes on if time remains.
  abbrev pub within : ℕ → S → (ℕ → Outcome S) → Outcome S
  within remaining s k = elim (is_left remaining) [
    | true ↦ k remaining
    | false ↦ some (timed_out index, s)
  ]

  -- The loop. `deadline - now` is 0 where Python's is negative, which the test takes alike.
  unfoldable pub wait_from : ℕ → ℕ → ℕ → S → Outcome S
  wait_from zero deadline delay s = none
  wait_from (suc fuel) deadline delay s =
      within (deadline - (monotonic s).0) (monotonic s).1 (λ remaining.
        after_poll index (poll remaining (monotonic s).1) (λ s'.
          within (deadline - (monotonic s').0) (monotonic s').1 (λ left.
            wait_from fuel deadline (next_delay delay) (sleep (min delay left) (monotonic s').1))))

  -- wait_for_index, for a timedelta in nanoseconds; `none` is that the fuel did not suffice.
  unfoldable pub wait_for_index : ℕ → ℤ → S → Outcome S
  wait_for_index fuel (negsuc timeout) s = some (raise value_error "timeout must be positive", s)
  wait_for_index fuel (pos timeout) s = elim (is_left timeout) [
    | true ↦ wait_from fuel ((monotonic s).0 + timeout) first_delay (monotonic s).1
    | false ↦ some (raise value_error "timeout must be positive", s)
  ]
