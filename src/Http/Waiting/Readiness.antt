-- ===== src/Http/Waiting/Readiness.antt =====
-- What a wait for an index that returns has seen.
use parqdb.Prelude.{
  ℕ, zero, suc, ◌-◌, String, true, Option, some, none, ◌==◌, eq_iff, ◌≡◌, ◌⊎◌, inl, inr, refl,
  Bool-cases, Option-cases,
}
use parqdb.Python.Exceptions.{Result, ok, err, Exception, is_instance, timeout_error}
use parqdb.Python.Int.{ℤ, pos, negsuc}
use Prim.Native.Nat.{min}
use parqdb.Status.{IndexStatus}
use parqdb.Http.Waiting.{
  next_delay, is_left, decide, Outcome, after_poll, within, wait_from, wait_for_index,
}

raised : {e : Exception} → ◌≡◌ {A = Option (Result (Unit {0}))} (some (err e)) (some (ok tt)) → ⊥
raised h = cc

nothing : {r : Result (Unit {0})} → none ≡ some r → ⊥
nothing h = cc

ended :
    {S : Type 0} {e : Exception} {s t : S}
    → ◌≡◌ {A = Outcome S} (some (err e, s)) (some (ok tt, t))
    → ⊥
ended h = cc

both :
    {S : Type 0} {r q : Result (Unit {0})} {s t : S}
    → ◌≡◌ {A = Outcome S} (some (r, s)) (some (q, t))
    → (r ≡ q) × (s ≡ t)
both h = (cc, cc)

decide-ok :
    (index : String) (status : IndexStatus)
    → decide index status ≡ some (ok tt)
    → (status.error ≡ none) × (status.state ≡ "ready")
unfolding decide
decide-ok index status h = elim (Option-cases status.error) [
  | inr (message, e) ↦ absurd (raised (rw e at h))
  | inl e ↦ elim (Bool-cases (status.state == "ready")) [
    | inl ready ↦ (e, (eq_iff status.state "ready").0 ready)
    | inr other ↦ elim (Bool-cases (status.state == "failed")) [
      | inl failed ↦ absurd (raised (rw (e, other, failed) at h))
      | inr busy ↦ absurd (nothing (rw (e, other, busy) at h))
    ]
  ]
]

-- What a poll that is not the end of a wait that returns goes on with, or the ready status.
after_poll-ok :
    {S : Type 0} (index : String) (p : Result IndexStatus × S) (again : S → Outcome S) (s : S)
    → after_poll index p again ≡ some (ok tt, s)
    → ((status : IndexStatus) × (p ≡ (ok status, s))
        × (status.error ≡ none)
        × (status.state ≡ "ready"))
      ⊎ ((s' : S) × (again s' ≡ some (ok tt, s)))
after_poll-ok index (err e, t) again s h = elim (Bool-cases (is_instance e.kind timeout_error)) [
  | inl late ↦ absurd (ended (rw late at h))
  | inr other ↦ absurd (ended (rw other at h))
]
after_poll-ok index (ok status, t) again s h = elim (Option-cases (decide index status)) [
  | inl going ↦ inr (t, rw going at h)
  | inr (r, e) ↦
      let (result, same) = both (rw e at h) in
      let (quiet, ready) = decide-ok index status (rw result at e) in
      inl (status, rw same refl, quiet, ready)
]

module _ {S : Type 0} (monotonic : S → ℕ × S) (sleep : ℕ → S → S)
    (poll : ℕ → S → Result IndexStatus × S) (index : String) where
  within-ok :
      (remaining : ℕ) (t : S) (k : ℕ → Outcome S) (s : S)
      → within monotonic sleep poll index remaining t k ≡ some (ok tt, s)
      → (is_left remaining ≡ true) × (k remaining ≡ some (ok tt, s))
  within-ok remaining t k s h = elim (Bool-cases (is_left remaining)) [
    | inl left ↦ (left, rw (within, left) at h)
    | inr over ↦ absurd (ended (rw (within, over) at h))
  ]

  -- A poll that found the index ready, with time left.
  abbrev pub Ready : S → Type 0
  Ready s =
      (remaining : ℕ) × (t : S) × (status : IndexStatus) × (is_left remaining ≡ true)
      × (poll remaining t ≡ (ok status, s))
      × (status.error ≡ none)
      × (status.state ≡ "ready")

  -- What the loop does after a poll that does not end it.
  abbrev go_on : ℕ → ℕ → ℕ → S → Outcome S
  go_on fuel deadline delay s =
      within monotonic sleep poll index (deadline - (monotonic s).0) (monotonic s).1 (λ left.
        wait_from monotonic sleep poll index fuel deadline (next_delay delay)
          (sleep (min delay left) (monotonic s).1))

  -- The rest of a turn, and of the loop, once there is time.
  abbrev turn : ℕ → ℕ → ℕ → S → ℕ → Outcome S
  turn fuel deadline delay s remaining =
      after_poll index (poll remaining (monotonic s).1) (go_on fuel deadline delay)

  abbrev sleep_on : ℕ → ℕ → ℕ → S → ℕ → Outcome S
  sleep_on fuel deadline delay s left =
      wait_from monotonic sleep poll index fuel deadline (next_delay delay)
        (sleep (min delay left) (monotonic s).1)

  wait_from-Ready :
      (fuel : ℕ) (deadline delay : ℕ) (s t : S)
      → wait_from monotonic sleep poll index fuel deadline delay s ≡ some (ok tt, t)
      → Ready t
  unfolding wait_from
  wait_from-Ready zero deadline delay s t h = cc
  wait_from-Ready (suc fuel) deadline delay s t h =
      let (left, polled) =
        within-ok (deadline - (monotonic s).0) (monotonic s).1 (turn fuel deadline delay s) t h in
      elim (after_poll-ok index (poll (deadline - (monotonic s).0) (monotonic s).1)
        (go_on fuel deadline delay) t polled) [
          | inl (status, found, quiet, ready) ↦
              (deadline - (monotonic s).0, (monotonic s).1, status, left, found, quiet, ready)
          | inr (s', continued) ↦
              let (_, rest) =
                within-ok (deadline - (monotonic s').0) (monotonic s').1
                  (sleep_on fuel deadline delay s') t continued in
              wait_from-Ready fuel deadline (next_delay delay)
                (sleep (min delay (deadline - (monotonic s').0)) (monotonic s').1) t rest
        ]

  -- If a wait for an index returns without an exception, the state it returns in is the one
  -- right after a poll that was made with time remaining and that found the index in the state
  -- ready and without an error.
  pub wait_for_index-Ready :
      (fuel : ℕ) (timeout : ℤ) (s t : S)
      → wait_for_index monotonic sleep poll index fuel timeout s ≡ some (ok tt, t)
      → Ready t
  unfolding wait_for_index
  wait_for_index-Ready fuel (negsuc timeout) s t h = absurd (ended h)
  wait_for_index-Ready fuel (pos timeout) s t h = elim (Bool-cases (is_left timeout)) [
    | inl left ↦ wait_from-Ready fuel _ _ (monotonic s).1 t (rw (wait_for_index, left) at h)
    | inr over ↦ absurd (ended (rw (wait_for_index, over) at h))
  ]
