-- ===== src/AbsenteeQr/Laws.antt =====
-- When a tick of the absentee panel mints a token, and what the backoff spares the backend.
use sensepro.Prelude.{
  ℕ, min, ◌||◌, zero, suc, ◌+◌, ◌-◌, ◌*◌, ◌^◌, ◌≤◌, ◌<◌, ◌≡◌, refl, ◌⊎◌, ◌↔◌, Bool, true, false,
  List, [], ◌∷◌, All, arith, Option, none, some,
}
use sensepro.Http.{Reply, replied, refused, thrown, is_replied}
use sensepro.AbsenteeQr.{
  Minted, Panel, wait_ms, fetch_begin, fetch_end, fetch_failed, seconds_left, deadline_of, is_zero,
  at_most, is_due, count_down, tick,
}

-- The deadline is 0, or is reached within three seconds.
abbrev EndsSoon : ℕ → Option ℕ → Type 0
EndsSoon now none = false ≡ true
EndsSoon now (some deadline) = (deadline ≡ 0) ⊎ (deadline ≤ now + 3000)

soon_iff :
    (now : ℕ) (deadline : Option ℕ)
    → (is_zero deadline || at_most 3 (seconds_left deadline now) ≡ true) ↔ EndsSoon now deadline
unfolding seconds_left
soon_iff now none = ground arith
soon_iff now (some deadline) = ground arith

-- A tick mints exactly when no request is in flight, the backoff is over, and there is no token
-- yet or it expires within three seconds.
pub tick-mints_iff :
    (now : ℕ) (p : Panel)
    → ((tick now p).1 ≡ true)
      ↔ ((p.fetching ≡ false) × (p.retry_after ≤ now) × EndsSoon now p.deadline)
unfolding tick is_due fetch_begin count_down
tick-mints_iff now p = ground (arith, soon_iff now p.deadline)

power-ge_1 : (n : ℕ) → 1 ≤ 2 ^ n
power-ge_1 zero = omega arith
power-ge_1 (suc n) = omega (arith, power-ge_1 n)

wait_ms-suc : (n : ℕ) → wait_ms (suc n) ≡ min 30000 (2000 * 2 ^ n)
unfolding wait_ms
wait_ms-suc n = let e : suc n - 1 ≡ n = omega arith in rw e

-- The wait after the n-th failure in a row is at least 2 s and at most 30 s, no shorter than the
-- wait before it, and 30 s from the fifth on.
pub wait_ms_lem :
    (n : ℕ)
    → (2000 ≤ wait_ms (suc n))
      × (wait_ms (suc n) ≤ 30000)
      × (wait_ms (suc n) ≤ wait_ms (suc (suc n)))
      × (wait_ms (suc (suc (suc (suc (suc n))))) ≡ 30000)
wait_ms_lem n =
    omega (
      arith,
      power-ge_1 n,
      wait_ms-suc n,
      wait_ms-suc (suc n),
      wait_ms-suc (suc (suc (suc (suc n)))),
    )

-- The ticks of a stretch of time in which no reply arrives: the panel and whether one of them minted.
pub run_ticks : List ℕ → Panel → Panel × Bool
run_ticks [] p = (p, false)
run_ticks (now ∷ times) p =
    let rest = run_ticks times (tick now p).0 in (rest.0, (tick now p).1 || rest.1)

tick-quiet :
    (now : ℕ) (p : Panel)
    → now < p.retry_after
    → ((tick now p).1 ≡ false) × ((tick now p).0.retry_after ≡ p.retry_after)
unfolding tick is_due count_down
tick-quiet now p h = ground arith

run_ticks-quiet :
    (times : List ℕ) (p : Panel)
    → All (λ t. t < p.retry_after) times
    → (run_ticks times p).1 ≡ false
unfolding run_ticks
run_ticks-quiet [] p h = refl
run_ticks-quiet (now ∷ times) p (h, hs) =
    let (q, e) = tick-quiet now p h in
    ground (arith, run_ticks-quiet times (tick now p).0 (rw e hs))

-- After a request that failed at a time, the wait that follows is at least 2 s and at most 30 s, and no
-- tick within that wait mints a token, whatever the failures before it.
pub run_ticks-backoff :
    (now : ℕ) (reply : Reply Minted) (p : Panel) (times : List ℕ)
    → is_replied reply ≡ false
    → All (λ t. t < now + wait_ms (suc p.failures)) times
    → ((run_ticks times (fetch_end now reply p)).1 ≡ false)
      × (now + 2000 ≤ (fetch_end now reply p).retry_after)
      × ((fetch_end now reply p).retry_after ≤ now + 30000)
unfolding fetch_end fetch_failed
run_ticks-backoff now (replied m) p times r h = absurd (ground (arith, r))
run_ticks-backoff now (refused s d) p times r h =
    let (low, high, _, _) = wait_ms_lem p.failures in
    (run_ticks-quiet times (fetch_end now (refused s d) p) h, omega arith, omega arith)
run_ticks-backoff now (thrown e) p times r h =
    let (low, high, _, _) = wait_ms_lem p.failures in
    (run_ticks-quiet times (fetch_end now (thrown e) p) h, omega arith, omega arith)

tick-undecoded :
    (now : ℕ) (p : Panel)
    → p.deadline ≡ none
    → ((tick now p).1 ≡ false) × ((tick now p).0.deadline ≡ none)
unfolding tick is_due count_down seconds_left
tick-undecoded now p h = ground (arith, h)

run_ticks-undecoded_from :
    (times : List ℕ) (p : Panel) → p.deadline ≡ none → (run_ticks times p).1 ≡ false
unfolding run_ticks
run_ticks-undecoded_from [] p h = refl
run_ticks-undecoded_from (now ∷ times) p h =
    let (q, e) = tick-undecoded now p h in
    ground (arith, run_ticks-undecoded_from times (tick now p).0 e)

-- After an answer with a successful status and no time to live, such as one whose body could not be decoded, no
-- tick ever mints again, however much time passes and whatever token is shown; no error is set.
pub run_ticks-undecoded :
    (now : ℕ) (m : Minted) (p : Panel) (times : List ℕ)
    → m.ttl_s ≡ none
    → p.error ≡ none
    → ((run_ticks times (fetch_end now (replied m) p)).1 ≡ false)
      × ((fetch_end now (replied m) p).error ≡ none)
      × ((fetch_end now (replied m) p).token ≡ m.token)
unfolding fetch_end
run_ticks-undecoded now m p times h e = (
  run_ticks-undecoded_from times (fetch_end now (replied m) p) (rw (h, deadline_of) refl),
  e,
  refl,
)
