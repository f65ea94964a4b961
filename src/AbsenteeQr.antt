-- ===== src/AbsenteeQr.antt =====
-- components/sp/AbsenteeQR.tsx: the panel that mints a rotating single-use token, with its backoff
-- after failures, its one-second tick and its feed of verified students. Times are in milliseconds;
-- the clock and the replies of the backend are arguments.
pub mod Laws
pub mod Runs
mod Tests
use sensepro.Prelude.{
  ℕ, suc, ◌+◌, ◌-◌, ◌*◌, ◌/◌, ◌^◌, min, String, Bool, true, false, ◌||◌, Option, none, some, List,
  ◌∷◌, [], take, ltb, leb, ◌==◌, str_eq, if◌then◌else◌, get_or_default,
}
use sensepro.Http.{Reply, replied, refused, thrown}

-- The body of a successful `/v1/qr/token`. A body that cannot be decoded is replaced by one with neither
-- field, and a missing field is `undefined`.
pub record Minted : Type 0 where
  pub token : Option String
  pub ttl_s : Option ℕ

-- The message of the panel: a detail or an exception's message, or `HTTP ${status}`.
pub data QrError : Type 0 where
  message : String → QrError
  http_status : ℕ → QrError

pub record Verified : Type 0 where
  pub name : String
  pub at : ℕ

pub record Panel : Type 0 where
  pub token : Option String
  pub deadline : Option ℕ  -- none for NaN
  pub remaining : Option ℕ
  pub error : Option QrError
  pub loading : Bool
  pub fetching : Bool
  pub failures : ℕ
  pub retry_after : ℕ
  pub verified : List Verified

abbrev pub initial : Panel
initial = record {
  token = none;
  deadline = some 0;
  remaining = some 0;
  error = none;
  loading = true;
  fetching = false;
  failures = 0;
  retry_after = 0;
  verified = [];
}

-- `Math.min(30_000, 2000 * 2 ** (failures.current - 1))`.
unfoldable pub wait_ms : ℕ → ℕ
wait_ms failures = min 30000 (2000 * 2 ^ (failures - 1))

-- The part of `fetchToken` before its first await, when it does not return at once.
unfoldable pub fetch_begin : Panel → Option Panel
fetch_begin p = if p.fetching then none else some (record p { fetching = true; error = none })

-- `body.detail || `HTTP ${resp.status}``.
unfoldable pub refusal : ℕ → Option String → QrError
refusal status none = http_status status
refusal status (some detail) = if str_eq detail "" then http_status status else message detail

-- The `catch` of `fetchToken`.
unfoldable pub fetch_failed : ℕ → QrError → Panel → Panel
unfolding wait_ms
fetch_failed now e p = record p {
  failures = suc p.failures;
  retry_after = now + wait_ms (suc p.failures);
  error = some e;
  loading = false;
  fetching = false;
}

-- `Date.now() + body.ttl_s * 1000`, NaN without the field.
unfoldable pub deadline_of : ℕ → Option ℕ → Option ℕ
deadline_of now none = none
deadline_of now (some ttl) = some (now + ttl * 1000)

-- The rest of `fetchToken`, once its reply has arrived.
unfoldable pub fetch_end : ℕ → Reply Minted → Panel → Panel
unfolding fetch_failed refusal deadline_of
fetch_end now (replied m) p = record p {
  token = m.token;
  deadline = deadline_of now m.ttl_s;
  failures = 0;
  retry_after = 0;
  loading = false;
  fetching = false;
}
fetch_end now (refused status detail) p = fetch_failed now (refusal status detail) p
fetch_end now (thrown e) p = fetch_failed now (message e) p

-- `Math.max(0, Math.ceil((deadline - Date.now()) / 1000))`.
unfoldable pub seconds_left : Option ℕ → ℕ → Option ℕ
seconds_left none now = none
seconds_left (some deadline) now = some ((deadline - now + 999) / 1000)

-- A comparison with NaN is false.
abbrev pub at_most : ℕ → Option ℕ → Bool
at_most n none = false
at_most n (some left) = leb left n

abbrev pub is_zero : Option ℕ → Bool
is_zero none = false
is_zero (some deadline) = deadline == 0

-- Whether the tick calls `fetchToken`.
unfoldable pub is_due : ℕ → Panel → Bool
unfolding seconds_left
is_due now p =
    if ltb now p.retry_after
    then false
    else is_zero p.deadline || at_most 3 (seconds_left p.deadline now)

-- A tick of the interval, up to the call of `fetchToken` that it may make.
unfoldable pub count_down : ℕ → Panel → Panel
unfolding seconds_left
count_down now p = record p { remaining = seconds_left p.deadline now }

-- A tick of the interval; the request is the second part.
unfoldable pub tick : ℕ → Panel → Panel × Bool
unfolding count_down is_due fetch_begin
tick now p =
    if is_due now p
    then (elim (fetch_begin (count_down now p)) [
      | some q ↦ (q, true)
      | none ↦ (count_down now p, false)
    ])
    else (count_down now p, false)

-- The label of a student: `full_name || reg_no || student_id.slice(0, 8)`, or only the last where
-- the query of the student throws.
pub record Student : Type 0 where
  pub full_name : Option String
  pub reg_no : Option String

unfoldable pub or_text : Option String → String → String
or_text none other = other
or_text (some s) other = if str_eq s "" then other else s

unfoldable pub label : Option Student → String → String
unfolding or_text
label none short_id = short_id
label (some s) short_id = or_text s.full_name (or_text s.reg_no short_id)

-- `[{ name, at: Date.now() }, ...prev.slice(0, 19)]`.
unfoldable pub add_verified : ℕ → String → Panel → Panel
add_verified now name p = record p {
  verified = record { name = name; at = now } ∷ take 19 p.verified;
}
