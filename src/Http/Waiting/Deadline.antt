-- ===== src/Http/Waiting/Deadline.antt =====
-- A wait for an index ends: by its deadline if not before.
use Prim.Native.Nat.{min}
use parqdb.Prelude.{
  ℕ, zero, suc, ◌+◌, ◌-◌, ◌*◌, ◌≤◌, String, true, Option, some, none, ◌≡◌, refl, arith, Bool-cases,
  inl, inr, ltb→lt,
}
use parqdb.Python.Exceptions.{Result, ok, err}
use parqdb.Python.Int.{pos}
use parqdb.Status.{IndexStatus}
use parqdb.Http.Waiting.{
  first_delay, next_delay, is_left, decide, Outcome, after_poll, after_status, within, wait_from,
  wait_for_index,
}

-- That time passes: with `now` for the time in a state, the clock reads a time between those before
-- and after the reading, a poll does not set the time back, and a sleep takes at least as long as it
-- is asked to.
pub record Passes {S : Type 0} (monotonic : S → ℕ × S) (sleep : ℕ → S → S)
    (poll : ℕ → S → Result IndexStatus × S) : Type 0 where
  pub now : S → ℕ
  pub not_before : (s : S) → now s ≤ (monotonic s).0
  pub not_after : (s : S) → (monotonic s).0 ≤ now (monotonic s).1
  pub polled : (remaining : ℕ) (s : S) → now s ≤ now (poll remaining s).1
  pub slept : (delay : ℕ) (s : S) → now s + delay ≤ now (sleep delay s)

next_delay-first : (delay : ℕ) → first_delay ≤ delay → first_delay ≤ next_delay delay
next_delay-first delay h = omega arith

module _ {S : Type 0} (monotonic : S → ℕ × S) (sleep : ℕ → S → S)
    (poll : ℕ → S → Result IndexStatus × S) where
  abbrev pub Ends : Outcome S → Type 0
  Ends o = (r : Result (Unit {0})) × (t : S) × (o ≡ some (r, t))

  within-Ends :
      (index : String) (remaining : ℕ) (s : S) (k : ℕ → Outcome S)
      → (is_left remaining ≡ true → Ends (k remaining))
      → Ends (within monotonic sleep poll index remaining s k)
  within-Ends index remaining s k h = elim (Bool-cases (is_left remaining)) [
    | inl e ↦ rw (within, e) (h e)
    | inr e ↦ rw (within, e) (_, s, refl)
  ]

  after_status-Ends :
      (o : Option (Result (Unit {0}))) (s : S) (again : S → Outcome S)
      → Ends (again s)
      → Ends (after_status o s again)
  after_status-Ends none s again h = h
  after_status-Ends (some r) s again h = (r, s, refl)

  after_poll-Ends :
      (index : String) (r : Result IndexStatus) (s : S) (again : S → Outcome S)
      → Ends (again s)
      → Ends (after_poll index (r, s) again)
  after_poll-Ends index (ok status) s again h = after_status-Ends (decide index status) s again h
  after_poll-Ends index (err e) s again h = (_, s, refl)

  module _ (p : Passes monotonic sleep poll) (index : String) where
    abbrev again : ℕ → ℕ → ℕ → S → ℕ → Outcome S
    again fuel deadline delay s left =
        wait_from monotonic sleep poll index fuel deadline (next_delay delay)
          (sleep (min delay left) s)

    abbrev looked : ℕ → ℕ → ℕ → S → Outcome S
    looked fuel deadline delay s =
        within monotonic sleep poll index (deadline - (monotonic s).0) (monotonic s).1
          (again fuel deadline delay (monotonic s).1)

    -- Each turn but the one that reaches the deadline takes the first delay off what is left.
    wait_from-Ends :
        (fuel : ℕ) (deadline delay : ℕ) (s : S)
        → first_delay ≤ delay
        → deadline ≤ p.now s + fuel * first_delay
        → Ends (wait_from monotonic sleep poll index (suc fuel) deadline delay s)
    unfolding wait_from
    wait_from-Ends zero deadline delay s g h =
        within-Ends index (deadline - (monotonic s).0) (monotonic s).1
          (λ r. after_poll index (poll r (monotonic s).1) (looked zero deadline delay))
          (λ e. absurd (omega (arith, p.not_before s, ltb→lt 0 (deadline - (monotonic s).0) e)))
    wait_from-Ends (suc fuel) deadline delay s g h =
        let t = deadline - (monotonic s).0 in
        let s₁ = (monotonic s).1 in
        let s₂ = (poll t s₁).1 in
        let left = deadline - (monotonic s₂).0 in
        within-Ends index t s₁
          (λ r. after_poll index (poll r s₁) (looked (suc fuel) deadline delay))
          (λ _. after_poll-Ends index (poll t s₁).0 s₂ (looked (suc fuel) deadline delay) (
            within-Ends index left (monotonic s₂).1
              (again (suc fuel) deadline delay (monotonic s₂).1)
              (λ e.
                wait_from-Ends fuel deadline (next_delay delay)
                  (sleep (min delay left) (monotonic s₂).1) (next_delay-first delay g)
                  (omega (
                    arith,
                    p.not_before s,
                    p.not_after s,
                    p.polled t s₁,
                    p.not_before s₂,
                    p.not_after s₂,
                    p.slept (min delay left) (monotonic s₂).1,
                  )))))

    -- If time passes, in that the clock reads a time between those before and after the
    -- reading, a poll does not set the time back and a sleep takes at least as long as it is
    -- asked to, then a wait for an index returns or raises within one turn of the loop more
    -- than 50 milliseconds fit into the timeout, rounded up, whatever the polls return or
    -- raise.
    pub wait_for_index-Ends :
        (fuel timeout : ℕ) (s : S)
        → timeout ≤ fuel * 50_000_000
        → Ends (wait_for_index monotonic sleep poll index (suc fuel) (pos timeout) s)
    unfolding wait_for_index
    wait_for_index-Ends fuel timeout s h = elim (Bool-cases (is_left timeout)) [
      | inl e ↦
          rw (wait_for_index, e)
            (wait_from-Ends fuel ((monotonic s).0 + timeout) first_delay (monotonic s).1
              (omega arith) (omega (arith, p.not_after s)))
      | inr e ↦ rw (wait_for_index, e) (_, s, refl)
    ]
