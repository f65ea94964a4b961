-- ===== src/Api.antt =====
-- lib/api.ts: the origins, the sign-in token, and the wait for the backend to be ready. Clerk, the
-- Supabase session, the environment and the health endpoint are arguments; times are in milliseconds.
pub mod Waiting
mod Tests
use sensepro.Prelude.{
  ℕ, zero, suc, ◌+◌, ◌-◌, min, max, String, Bool, true, false, Option, none, some, List, [], ◌∷◌,
  ltb, str_eq, if◌then◌else◌, get_or_default,
}
use sensepro.Http.{Outcome, ok, err}

-- `VITE_… || …`, an environment variable with its default.
unfoldable pub env_or : Option String → String → String
env_or none d = d
env_or (some v) d = if str_eq v "" then d else v

-- `API_BASE` and `claimBase`; the origin is missing where there is no window.
unfoldable pub api_base : Option String → String
unfolding env_or
api_base v = env_or v "http://localhost:8000"

unfoldable pub claim_base : Option String → Option String → String
unfolding env_or
claim_base v origin = env_or v (get_or_default origin "")

-- `window.Clerk`: its session's `getToken`, with or without `skipCache`, returns or throws.
pub record Clerk : Type 0 where
  pub loaded : Bool
  pub get_token : Option (Bool → Outcome (Option String) String)

abbrev pub is_loaded : Option Clerk → Bool
is_loaded none = false
is_loaded (some c) = c.loaded

-- The polls that are left; the i-th read is 50 ms after the one before.
unfoldable pub poll : ℕ → ℕ → (ℕ → Option Clerk) → Option Clerk
poll zero i clerk_at = clerk_at i
poll (suc left) i clerk_at =
    let later = poll left (suc i) clerk_at in if is_loaded (clerk_at i) then clerk_at i else later

-- A read at once, and at most 40 polls.
unfoldable pub found_clerk : (ℕ → Option Clerk) → Option Clerk
unfolding poll
found_clerk clerk_at = poll 40 0 clerk_at

abbrev pub truthy : Option String → Option String
truthy none = none
truthy (some t) = if str_eq t "" then none else some t

-- The token of Clerk's session, when there is one.
unfoldable pub clerk_token : Bool → Option Clerk → Option String
clerk_token force none = none
clerk_token force (some c) = elim c.get_token [
  | none ↦ none
  | some get_token ↦ elim (get_token force) [ ok t ↦ truthy t | err e ↦ none ]
]

-- `getAuthToken`: whether there is a window, what Clerk is at each read, and the Supabase session.
unfoldable pub get_auth_token :
    Bool → Bool → (ℕ → Option Clerk) → Outcome (Option String) String → Option String
unfolding found_clerk clerk_token
get_auth_token force has_window clerk_at session =
    let fallback : Option String = elim session [ ok t ↦ t | err e ↦ none ] in
    if has_window
    then (elim (clerk_token force (found_clerk clerk_at)) [ some t ↦ some t | none ↦ fallback ])
    else fallback

-- `authHeader`: `Bearer ${token}`, or no header.
pub data Header : Type 0 where
  bearer : String → Header
  no_header : Header

unfoldable pub header_of : Option String → Header
header_of none = no_header
header_of (some t) = if str_eq t "" then no_header else bearer t

unfoldable pub auth_header :
    Bool → Bool → (ℕ → Option Clerk) → Outcome (Option String) String → Header
unfolding header_of get_auth_token
auth_header force has_window clerk_at session =
    header_of (get_auth_token force has_window clerk_at session)

-- The options of `waitForApiReady`, and the values that it uses.
pub record ReadyOptions : Type 0 where
  pub timeout_ms : Option ℕ
  pub attempt_timeout_ms : Option ℕ
  pub retry_delay_ms : Option ℕ

unfoldable pub timeout_of : ReadyOptions → ℕ
timeout_of o = max 1 (get_or_default o.timeout_ms 90000)

unfoldable pub attempt_of : ReadyOptions → ℕ
attempt_of o = max 250 (get_or_default o.attempt_timeout_ms 12000)

unfoldable pub delay_of : ReadyOptions → ℕ
delay_of o = max 0 (get_or_default o.retry_delay_ms 1000)

-- What a request to `/healthz` comes to if it is not aborted, and how long that takes.
pub data Health : Type 0 where
  healthy : Health
  status : ℕ → Health
  exception : String → Health

pub record Probe : Type 0 where
  pub took : ℕ
  pub health : Health

-- `lastIssue`.
pub data Issue : Type 0 where
  no_response timed_out : Issue
  returned : ℕ → Issue
  failed : String → Issue

unfoldable pub issue_of : Health → Issue
issue_of healthy = no_response
issue_of (status n) = returned n
issue_of (exception e) = failed e

abbrev pub is_healthy : Health → Bool
is_healthy healthy = true
is_healthy _ = false

-- The loop, from a time and with the last issue; the probe depends on when it is started. It ends
-- ready, or with the issue of the error, and at a time.
module _ (deadline attempt delay : ℕ) (probe : ℕ → Probe) where
  -- `Math.min(attemptTimeoutMs, remainingMs)`: the request is aborted then.
  unfoldable pub limit : ℕ → ℕ
  limit now = min attempt (deadline - now)

  unfoldable pub is_answered : ℕ → Bool
  unfolding limit
  is_answered now = ltb (probe now).took (limit now)

  unfoldable pub attempt_end : ℕ → ℕ
  unfolding is_answered limit
  attempt_end now = if is_answered now then now + (probe now).took else now + limit now

  unfoldable pub attempt_issue : ℕ → Issue
  unfolding is_answered issue_of
  attempt_issue now = if is_answered now then issue_of (probe now).health else timed_out

  -- After the pause.
  unfoldable pub next_attempt : ℕ → ℕ
  unfolding attempt_end
  next_attempt now = attempt_end now + min delay (deadline - attempt_end now)

  unfoldable pub ready_loop : ℕ → ℕ → Issue → Option (Outcome (Unit {0}) Issue × ℕ)
  unfolding is_answered attempt_end attempt_issue next_attempt
  ready_loop zero now issue = none
  ready_loop (suc fuel) now issue =
      let rest = ready_loop fuel (next_attempt now) (attempt_issue now) in
      if ltb now deadline
      then (if is_answered now
          then (if is_healthy (probe now).health then some (ok tt, attempt_end now) else rest)
          else rest)
      else some (err issue, now)

-- `waitForApiReady`, started at a time.
unfoldable pub wait_for_api_ready :
    ReadyOptions → ℕ → ℕ → (ℕ → Probe) → Option (Outcome (Unit {0}) Issue × ℕ)
unfolding ready_loop timeout_of attempt_of delay_of
wait_for_api_ready o fuel now probe =
    ready_loop (now + timeout_of o) (attempt_of o) (delay_of o) probe fuel now no_response
