-- ===== src/Api/Waiting.antt =====
-- The wait for the backend ends by its deadline, and a backend that is up in time is found.
use sensepro.Prelude.{
  ◌∙◌, ◌&&◌, ℕ, zero, suc, ◌+◌, ◌≤◌, ◌<◌, ◌≡◌, inl, inr, Bool, true, false, Option, some, arith,
  Bool-cases, ltb,
}
use sensepro.Http.{Outcome, ok, err, is_ok}
use sensepro.Api.{
  Issue, Probe, healthy, is_healthy, limit, is_answered, attempt_end, attempt_issue, next_attempt,
  ready_loop, ReadyOptions, timeout_of, attempt_of, delay_of, wait_for_api_ready, no_response,
}

-- From a time on, every request is answered as healthy within 250 ms.
abbrev pub IsUp : (ℕ → Probe) → ℕ → Type 0
IsUp probe since = (t : ℕ) → since ≤ t → ((probe t).took < 250) × ((probe t).health ≡ healthy)

module _ (deadline attempt delay : ℕ) (probe : ℕ → Probe) where
  -- A round takes at least a millisecond and does not pass the deadline.
  next_attempt-bounds :
      (now : ℕ)
      → 1 ≤ delay
      → now < deadline
      → (suc now ≤ next_attempt deadline attempt delay probe now)
        × (next_attempt deadline attempt delay probe now ≤ deadline)
        × (next_attempt deadline attempt delay probe now ≤ now + attempt + delay)
        × (attempt_end deadline attempt delay probe now ≤ deadline)
        × (now ≤ attempt_end deadline attempt delay probe now)
  unfolding next_attempt attempt_end is_answered limit
  next_attempt-bounds now d lt = ground arith

  -- Whether the attempt that is started now finds the backend ready.
  abbrev succeeds : ℕ → Bool
  succeeds now = is_answered deadline attempt delay probe now && is_healthy (probe now).health

  ready_loop-hit :
      (fuel now : ℕ) (issue : Issue)
      → now < deadline
      → succeeds now ≡ true
      → ready_loop deadline attempt delay probe (suc fuel) now issue
        ≡ some (ok tt, attempt_end deadline attempt delay probe now)
  unfolding ready_loop
  ready_loop-hit fuel now issue lt h = ground arith

  ready_loop-miss :
      (fuel now : ℕ) (issue : Issue)
      → now < deadline
      → succeeds now ≡ false
      → ready_loop deadline attempt delay probe (suc fuel) now issue
        ≡ ready_loop deadline attempt delay probe fuel
            (next_attempt deadline attempt delay probe now)
            (attempt_issue deadline attempt delay probe now)
  unfolding ready_loop
  ready_loop-miss fuel now issue lt h = ground arith

  ready_loop-late :
      (fuel now : ℕ) (issue : Issue)
      → deadline ≤ now
      → ready_loop deadline attempt delay probe (suc fuel) now issue ≡ some (err issue, now)
  unfolding ready_loop
  ready_loop-late fuel now issue le = ground arith

  succeeds-up :
      (now since : ℕ)
      → 250 ≤ attempt
      → ((probe now).took < 250) × ((probe now).health ≡ healthy)
      → since + attempt + delay + 250 ≤ deadline
      → now < since + attempt + delay
      → ¬ (succeeds now ≡ false)
  unfolding is_answered limit
  succeeds-up now since a (quick, h) room lt = ground arith

  -- The loop has ended by the deadline, and with an error at the deadline.
  abbrev pub IsInTime : ℕ → Option (Outcome (Unit {0}) Issue × ℕ) → Type 0
  IsInTime now found =
      (r : Outcome (Unit {0}) Issue) × (t : ℕ) × (found ≡ some (r, t))
      × (now ≤ t)
      × (t ≤ deadline)
      × (is_ok r ≡ false → t ≡ deadline)

  ready_loop-IsInTime :
      (fuel now : ℕ) (issue : Issue)
      → 1 ≤ delay
      → now ≤ deadline
      → deadline < now + fuel
      → IsInTime now (ready_loop deadline attempt delay probe fuel now issue)
  ready_loop-IsInTime zero now issue d le f = absurd (omega arith)
  ready_loop-IsInTime (suc fuel) now issue d le f = elim (Bool-cases (ltb now deadline)) [
    | inr late ↦
        let over : deadline ≤ now = ground arith in
        (err issue, now, ready_loop-late fuel now issue over, omega arith, le, λ _. omega arith)
    | inl early ↦
        let lt : now < deadline = ground arith in
        let (late, most, _, end, soon) = next_attempt-bounds now d lt in
        elim (Bool-cases (succeeds now)) [
          | inl hit ↦ (
            ok tt,
            attempt_end deadline attempt delay probe now,
            ready_loop-hit fuel now issue lt hit,
            soon,
            end,
            λ e. cc,
          )
          | inr miss ↦
              let (r, t, e, ge, le2, at) =
                ready_loop-IsInTime fuel (next_attempt deadline attempt delay probe now)
                  (attempt_issue deadline attempt delay probe now) d most (omega arith) in
              (r, t, ready_loop-miss fuel now issue lt miss ∙ e, omega arith, le2, at)
        ]
  ]

  ready_loop-ready :
      (fuel now since : ℕ) (issue : Issue)
      → 1 ≤ delay
      → 250 ≤ attempt
      → IsUp probe since
      → since + attempt + delay + 250 ≤ deadline
      → now < since + attempt + delay
      → deadline < now + fuel
      → (t : ℕ) × (ready_loop deadline attempt delay probe fuel now issue ≡ some (ok tt, t))
  ready_loop-ready zero now since issue d a up room lt f = absurd (omega arith)
  ready_loop-ready (suc fuel) now since issue d a up room lt f =
      let early : now < deadline = omega arith in
      let (late, most, far, end, soon) = next_attempt-bounds now d early in
      elim (Bool-cases (succeeds now)) [
        | inl hit ↦
            (attempt_end deadline attempt delay probe now, ready_loop-hit fuel now issue early hit)
        | inr miss ↦ elim (Bool-cases (ltb now since)) [
          | inr after ↦ absurd (succeeds-up now since a (up now (ground arith)) room lt miss)
          | inl before ↦
              let (t, e) =
                ready_loop-ready fuel (next_attempt deadline attempt delay probe now) since
                  (attempt_issue deadline attempt delay probe now) d a up room (ground arith)
                  (omega arith) in
              (t, ready_loop-miss fuel now issue early miss ∙ e)
        ]
      ]

attempt_of-ge : (o : ReadyOptions) → 250 ≤ attempt_of o
unfolding attempt_of
attempt_of-ge o = omega arith

-- With a pause of at least a millisecond, the wait for the backend returns by its deadline, with
-- `timeoutMs + 1` rounds of fuel whatever the requests come to, and it gives up at the deadline only. If
-- from a time on the backend answers within 250 ms, and that time is early enough for one more
-- attempt, one pause and 250 ms before the deadline, the wait succeeds.
pub wait_for_api_ready-ready :
    (o : ReadyOptions) (now since : ℕ) (probe : ℕ → Probe)
    → 1 ≤ delay_of o
    → IsInTime
        (now + timeout_of o)
        (attempt_of o)
        (delay_of o)
        probe
        now
        (wait_for_api_ready o (suc (timeout_of o)) now probe)
      × (IsUp probe since
          → now ≤ since
          → since + attempt_of o + delay_of o + 250 ≤ now + timeout_of o
          → (t : ℕ) × (wait_for_api_ready o (suc (timeout_of o)) now probe ≡ some (ok tt, t)))
unfolding wait_for_api_ready
wait_for_api_ready-ready o now since probe d = (
  ready_loop-IsInTime (now + timeout_of o) (attempt_of o) (delay_of o) probe (suc (timeout_of o))
      now no_response d (omega arith) (omega arith),
  λ up le room.
      let a = attempt_of-ge o in
      ready_loop-ready (now + timeout_of o) (attempt_of o) (delay_of o) probe (suc (timeout_of o))
        now since no_response d a up room (omega arith) (omega arith),
)
