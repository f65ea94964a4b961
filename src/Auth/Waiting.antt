-- ===== src/Auth/Waiting.antt =====
-- The wait for Clerk ends, and misses no poll.
use sensepro.Prelude.{
  ℕ, zero, suc, ◌+◌, ◌*◌, ◌≤◌, ◌<◌, ◌≡◌, ◌⊎◌, inl, inr, true, false, Option, some, arith,
  Bool-cases, ltb,
}
use sensepro.Auth.Resolve.{Clerk, Browser, wait_loop, wait_for_clerk, rounds, is_loaded}

module _ (clerk_at : ℕ → Option Clerk) where
  -- With fuel for all the polls that are left the loop returns, and it returns a loaded Clerk if
  -- any of those polls sees one.
  wait_loop-loaded :
      (fuel waited k : ℕ)
      → 2500 < waited + 30 * fuel
      → waited + 30 * k < 2500
      → is_loaded (clerk_at (waited + 30 * k)) ≡ true
      → (c : Option Clerk) × (wait_loop fuel waited clerk_at ≡ some c) × (is_loaded c ≡ true)
  unfolding wait_loop
  wait_loop-loaded zero waited k f lt l = absurd (omega arith)
  wait_loop-loaded (suc fuel) waited zero f lt l =
      let now : is_loaded (clerk_at waited) ≡ true =
        (let e : waited + 30 * 0 ≡ waited = omega arith in rw e at l) in
      (clerk_at waited, ground arith, now)
  wait_loop-loaded (suc fuel) waited (suc k) f lt l =
      let e : waited + 30 * suc k ≡ waited + 30 + 30 * k = omega arith in
      let (c, r, lc) =
        wait_loop-loaded fuel (waited + 30) k (omega arith) (omega arith) (rw e at l) in
      elim (Bool-cases (is_loaded (clerk_at waited))) [
        | inl now ↦ (clerk_at waited, ground arith, now)
        | inr later ↦ (c, ground arith, lc)
      ]

  -- The loop always ends within its rounds.
  wait_loop_total :
      (fuel waited : ℕ)
      → waited < 2530
      → 2530 ≤ waited + 30 * fuel
      → (c : Option Clerk) × (wait_loop fuel waited clerk_at ≡ some c)
  unfolding wait_loop
  wait_loop_total zero waited lt f = absurd (omega arith)
  wait_loop_total (suc fuel) waited lt f = elim (Bool-cases (ltb waited 2500)) [
    | inl early ↦
        let (c, r) = wait_loop_total fuel (waited + 30) (ground arith) (omega arith) in
        elim (Bool-cases (is_loaded (clerk_at waited))) [
          | inl now ↦ (clerk_at waited, rw (early, now))
          | inr later ↦ (c, rw (early, later) r)
        ]
    | inr late ↦ (clerk_at waited, rw late)
  ]

-- In the browser the wait for Clerk ends within its 85 reads, and for each poll below 2500 ms, either
-- Clerk is not loaded at that poll or a loaded Clerk is returned.
pub wait_for_clerk-loaded :
    (b : Browser) (k : ℕ)
    → b.has_window ≡ true
    → 30 * k < 2500
    → ((c : Option Clerk) × (wait_loop rounds 0 b.clerk_at ≡ some c))
      × ((is_loaded (b.clerk_at (30 * k)) ≡ false) ⊎ (is_loaded (wait_for_clerk b) ≡ true))
unfolding wait_for_clerk
wait_for_clerk-loaded b k w lt = (
  wait_loop_total b.clerk_at rounds 0 (omega arith) (omega arith),
  elim (Bool-cases (is_loaded (b.clerk_at (30 * k)))) [
    | inl l ↦
        let e : 0 + 30 * k ≡ 30 * k = omega arith in
        let (c, r, lc) =
          wait_loop-loaded b.clerk_at rounds 0 k (omega arith) (omega arith) (rw (← e) at l) in
        inr (ground (arith, r, lc))
    | inr unloaded ↦ inl unloaded
  ],
)
