-- ===== src/Api/Tests.antt =====
-- The wait for a backend that is up from the fifth second on.
use sensepro.Prelude.{ℕ, ◌≡◌, ◌≤◌, ◌+◌, suc, none, some, ltb, arith, if◌then◌else◌}
use sensepro.Http.{ok}
use sensepro.Api.{
  Probe, healthy, status, ReadyOptions, timeout_of, attempt_of, delay_of, wait_for_api_ready,
}
use sensepro.Api.Waiting.{IsInTime, IsUp, wait_for_api_ready-ready}

abbrev defaults : ReadyOptions
defaults = record { timeout_ms = none; attempt_timeout_ms = none; retry_delay_ms = none }

abbrev from_5s : ℕ → Probe
from_5s t = record { took = 20; health = if ltb t 5000 then status 503 else healthy }

from_5s-IsUp : IsUp from_5s 5000
from_5s-IsUp t le = ground arith

wait_for_api_ready-ready_example :
    IsInTime
      (0 + timeout_of defaults)
      (attempt_of defaults)
      (delay_of defaults)
      from_5s
      0
      (wait_for_api_ready defaults (suc (timeout_of defaults)) 0 from_5s)
    × (IsUp from_5s 5000
        → 0 ≤ 5000
        → 5000 + attempt_of defaults + delay_of defaults + 250 ≤ 0 + timeout_of defaults
        → (t : ℕ) × (wait_for_api_ready defaults (suc (timeout_of defaults)) 0 from_5s
            ≡ some (ok tt, t)))
unfolding delay_of
wait_for_api_ready-ready_example = wait_for_api_ready-ready defaults 0 5000 from_5s (omega arith)

-- With the default options the backend has until 76.75 s to come up.
in_time :
    (t : ℕ) × (wait_for_api_ready defaults (suc (timeout_of defaults)) 0 from_5s ≡ some (ok tt, t))
unfolding timeout_of attempt_of delay_of
in_time =
    (wait_for_api_ready-ready defaults 0 5000 from_5s (omega arith)).1 from_5s-IsUp (omega arith)
      (omega arith)
