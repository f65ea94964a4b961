-- ===== src/AbsenteeQr/Runs.antt =====
-- The absentee panel over any interleaving of ticks, clicks, replies and the feed.
use sensepro.Prelude.{
  ℕ, suc, ◌+◌, ◌≤◌, ◌≡◌, refl, true, String, none, some, length, length-take-le, arith,
  if◌then◌else◌,
}
use sensepro.Http.{Reply, replied, refused, thrown}
use sensepro.AbsenteeQr.{
  Minted, Panel, initial, fetch_begin, fetch_end, fetch_failed, tick, add_verified, is_due,
  count_down,
}
use sensepro.AbsenteeQr.Laws.{wait_ms_lem}

-- The panel, the requests whose reply has not arrived, and the time of the last event.
pub record System : Type 0 where
  pub panel : Panel
  pub in_flight : ℕ
  pub now : ℕ

abbrev mount_at : ℕ → System
mount_at t = record { panel = initial; in_flight = 0; now = t }

-- The first effect and the Retry button call `fetchToken`; a tick may; a reply ends a request that
-- is in flight; a satisfied window adds to the feed.
pub data Step (s : System) : System → Type 0 where
  clicked :
      {p : Panel} (t : ℕ)
      → s.now ≤ t
      → fetch_begin s.panel ≡ some p
      → Step s (record { panel = p; in_flight = suc s.in_flight; now = t })
  ticked :
      (t : ℕ)
      → s.now ≤ t
      → Step s (record {
        panel = (tick t s.panel).0;
        in_flight = if (tick t s.panel).1 then suc s.in_flight else s.in_flight;
        now = t;
      })
  arrived :
      (t n : ℕ) (reply : Reply Minted)
      → s.now ≤ t
      → s.in_flight ≡ suc n
      → Step s (record { panel = fetch_end t reply s.panel; in_flight = n; now = t })
  satisfied :
      (t : ℕ) (name : String)
      → s.now ≤ t
      → Step s (record { panel = add_verified t name s.panel; in_flight = s.in_flight; now = t })

pub data Reach (t : ℕ) : System → Type 0 where
  start : Reach t (mount_at t)
  later : {r s : System} → Reach t r → Step r s → Reach t s

-- The request in flight is the one that `fetching` tells of.
abbrev pub Inv : System → Type 0
Inv s =
    (s.in_flight ≡ (if s.panel.fetching then 1 else 0))
    × (length s.panel.verified ≤ 20)
    × (s.panel.retry_after ≤ s.now + 30000)
    × (s.panel.failures ≡ 0 → s.panel.retry_after ≡ 0)
    × (s.panel.loading ≡ true → (s.panel.token ≡ none) × (s.panel.deadline ≡ some 0))

Step-Inv : {r s : System} → Step r s → Inv r → Inv s
unfolding fetch_begin fetch_end fetch_failed tick is_due count_down add_verified
Step-Inv {r} (clicked t le b) inv = ground (arith, b)
Step-Inv {r} (ticked t le) inv = ground arith
Step-Inv {r} (arrived t n (replied m) le f) inv = ground arith
Step-Inv {r} (arrived t n (refused c d) le f) inv = ground (arith, wait_ms_lem r.panel.failures)
Step-Inv {r} (arrived t n (thrown e) le f) inv = ground (arith, wait_ms_lem r.panel.failures)
Step-Inv {r} (satisfied t name le) inv = ground (arith, length-take-le 19 r.panel.verified)

-- However ticks, clicks, replies and the feed interleave, at most one request is in flight and
-- `fetching` tells of it, the list of verified students has at most twenty entries, a backoff never
-- reaches further than 30 s past the last event, without a failure there is none, and while the
-- panel says that it loads there is neither a token nor a deadline.
pub Reach-Inv : {t : ℕ} {s : System} → Reach t s → Inv s
Reach-Inv start = (refl, omega arith, omega arith, λ _. refl, λ _. (refl, refl))
Reach-Inv (later r st) = Step-Inv st (Reach-Inv r)
