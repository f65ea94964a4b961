-- ===== src/AbsenteeQr/Tests.antt =====
-- The panel of the absentee code at concrete times.
use sensepro.Prelude.{◌≡◌, refl, ◌≤◌, ◌+◌, false, true, none, some, [], ◌∷◌, arith}
use sensepro.Http.{Reply, refused, replied}
use sensepro.AbsenteeQr.{
  Minted, Panel, initial, fetch_begin, fetch_end, tick, is_due, count_down, wait_ms, seconds_left,
}
use sensepro.AbsenteeQr.Laws.{run_ticks, run_ticks-backoff, run_ticks-undecoded}
use sensepro.AbsenteeQr.Runs.{System, clicked, arrived, Reach, start, later, Inv, Reach-Inv}

-- The panel while its first request is in flight, and after an answer with a token for 20 s.
abbrev asking : Panel
asking = record initial { fetching = true }

abbrev token_20s : Reply Minted
token_20s = replied (record { token = some "abc"; ttl_s = some 20 })

abbrev with_token : Panel
with_token = record initial {
  token = some "abc";
  deadline = some 21000;
  loading = false;
  verified = [];
}

rotates : ((tick 17999 with_token).1 ≡ false) × ((tick 18000 with_token).1 ≡ true)
unfolding tick is_due seconds_left fetch_begin count_down
rotates = (refl, refl)

run_ticks-backoff_example :
    ((run_ticks (2000 ∷ 2999 ∷ []) (fetch_end 1000 (refused 503 none) asking)).1 ≡ false)
    × (1000 + 2000 ≤ (fetch_end 1000 (refused 503 none) asking).retry_after)
    × ((fetch_end 1000 (refused 503 none) asking).retry_after ≤ 1000 + 30000)
unfolding wait_ms
run_ticks-backoff_example =
    run_ticks-backoff 1000 (refused 503 none) asking (2000 ∷ 2999 ∷ []) refl
      (omega arith, (omega arith, tt))

-- A successful answer that is not JSON.
abbrev undecoded : Minted
undecoded = record { token = none; ttl_s = none }

run_ticks-undecoded_example :
    ((run_ticks (2000 ∷ 60000 ∷ []) (fetch_end 1000 (replied undecoded) asking)).1 ≡ false)
    × ((fetch_end 1000 (replied undecoded) asking).error ≡ none)
    × ((fetch_end 1000 (replied undecoded) asking).token ≡ none)
run_ticks-undecoded_example =
    run_ticks-undecoded 1000 undecoded asking (2000 ∷ 60000 ∷ []) refl refl

-- Mounted at 0, the token is there at 1000.
abbrev answered : System
answered = record { panel = fetch_end 1000 token_20s asking; in_flight = 0; now = 1000 }

answered-Reach : Reach 0 answered
unfolding fetch_begin
answered-Reach =
    later (later start (clicked 0 (omega arith) refl)) (arrived 1000 0 token_20s (omega arith) refl)

Reach-Inv_example : Inv answered
Reach-Inv_example = Reach-Inv answered-Reach
