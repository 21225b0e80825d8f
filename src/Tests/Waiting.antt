-- ===== src/Tests/Waiting.antt =====
-- A wait for an index that is ready at the third poll.
use parqdb.Prelude.{ℕ, ◌+◌, leb, some, none, ◌≡◌, refl, arith, if◌then◌else◌}
use parqdb.Python.Exceptions.{Result, ok, raise, timeout_error}
use parqdb.Python.Int.{pos}
use parqdb.Status.{IndexStatus}
use parqdb.Http.Waiting.{decide, wait_from, wait_for_index}
use parqdb.Http.Waiting.Readiness.{Ready, wait_for_index-Ready}
use parqdb.Http.Waiting.Deadline.{Passes, Ends, wait_for_index-Ends}
use parqdb.Tests.Samples.{building}

abbrev ready_status : IndexStatus
ready_status = record {
  state = "ready";
  progress = none;
  phase = none;
  completed = none;
  total = none;
  current_snapshot_id = none;
  error = none;
  error_code = none;
}

-- The state is the time; the index is ready from a tenth of a second on.
abbrev now_of : ℕ → ℕ × ℕ
now_of now = (now, now)

abbrev sleep_for : ℕ → ℕ → ℕ
sleep_for delay now = now + delay

abbrev ready_later : ℕ → ℕ → Result IndexStatus × ℕ
ready_later remaining now = (ok (if leb 100_000_000 now then ready_status else building), now)

abbrev never_ready : ℕ → ℕ → Result IndexStatus × ℕ
never_ready remaining now = (ok building, now)

waited :
    wait_for_index now_of sleep_for ready_later "near" 4 (pos 1_000_000_000) 0
    ≡ some (ok tt, 125_000_000)
unfolding wait_for_index wait_from decide
waited = refl

wait_for_index-Ready_example : Ready now_of sleep_for ready_later "near" 125_000_000
wait_for_index-Ready_example =
    wait_for_index-Ready now_of sleep_for ready_later "near" 4 (pos 1_000_000_000) 0 125_000_000
      waited

-- The time passes by the sleeps alone.
seconds_pass : Passes now_of sleep_for never_ready
seconds_pass = record {
  now = λ now. now;
  not_before = λ s. omega arith;
  not_after = λ s. omega arith;
  polled = λ remaining s. omega arith;
  slept = λ delay s. omega arith;
}

wait_for_index-Ends_example :
    Ends now_of sleep_for never_ready
      (wait_for_index now_of sleep_for never_ready "near" 41 (pos 2_000_000_000) 0)
wait_for_index-Ends_example =
    wait_for_index-Ends now_of sleep_for never_ready seconds_pass "near" 40 2_000_000_000 0
      (omega arith)

timed_out_at_two :
    wait_for_index now_of sleep_for never_ready "near" 41 (pos 2_000_000_000) 0
    ≡ some (raise timeout_error "timed out waiting for index: near", 2_000_000_000)
unfolding wait_for_index wait_from decide parqdb.Text.Chars.format
timed_out_at_two = refl
