-- ===== src/ClaimPage.antt =====
-- routes/claim.tsx: the page that a student's phone opens from the code. The link's token is claimed
-- on mount, then a selfie is sent while the window is open. Times are in milliseconds; the clock, the
-- sign-in token, the camera's picture and the replies of the backend are arguments.
pub mod Laws
pub mod Runs
mod Tests
use sensepro.Prelude.{
  ℕ, ◌+◌, ◌-◌, ◌*◌, ◌/◌, String, Bool, true, false, ◌||◌, not, Option, none, some, ◌==◌, str_eq,
  if◌then◌else◌, leb,
}

pub data Phase : Type 0 where
  claiming verifying verified expired error : Phase

-- What a request comes to: the fetch throws a TypeError when there is no network.
pub data Answer {ℓ} (A : Type ℓ) : Type ℓ where
  accepted : A → Answer A
  rejected : ℕ → Option String → Answer A
  offline : String → Answer A
  raised : String → Answer A

-- The body of a successful claim. A body that cannot be decoded is replaced by one without these fields, and a
-- missing field is `undefined`.
pub record Claimed : Type 0 where
  pub window_id : Option String
  pub seconds : Option ℕ
  pub text : Option String

-- What the page shows: a text of the backend or of an exception, `HTTP ${status}` where the backend
-- gave no detail, or one of its own sentences.
pub data Text : Type 0 where
  empty undefined no_code not_secure sign_in session_over no_network timed_out window_expired
        could_not_verify camera_starting no_window no_match no_photo rescan :
      Text
  said : String → Text
  http_status : ℕ → Text

pub record Page : Type 0 where
  pub phase : Phase
  pub message : Text
  pub is_auth_error : Bool
  pub remaining : Option ℕ  -- none for NaN and undefined
  pub submitting : Bool
  pub note : Option Text
  pub window_id : Option String
  pub deadline : Option ℕ  -- none for NaN

abbrev pub initial : Page
initial = record {
  phase = claiming;
  message = empty;
  is_auth_error = false;
  remaining = some 0;
  submitting = false;
  note = none;
  window_id = none;
  deadline = some 0;
}

-- `detail || fallback`.
unfoldable pub or_else : Option String → Text → Text
or_else none fallback = fallback
or_else (some detail) fallback = if str_eq detail "" then fallback else said detail

unfoldable pub stop_with : Text → Page → Page
stop_with text p = record p { phase = error; message = text }

unfoldable pub text_of : Option String → Text
text_of none = undefined
text_of (some text) = said text

-- `Date.now() + body.seconds * 1000`.
unfoldable pub deadline_of : ℕ → Option ℕ → Option ℕ
deadline_of now none = none
deadline_of now (some seconds) = some (now + seconds * 1000)

-- The request of the claim effect, when it was not cancelled meanwhile.
unfoldable pub claim_answer : ℕ → Answer Claimed → Page → Page
unfolding stop_with or_else text_of deadline_of
claim_answer now (accepted c) p = record p {
  window_id = c.window_id;
  deadline = deadline_of now c.seconds;
  remaining = c.seconds;
  message = text_of c.text;
  phase = verifying;
}
claim_answer now (rejected status detail) p =
    if status == 401
    then stop_with session_over (record p { is_auth_error = true })
    else stop_with (or_else detail (http_status status)) p
claim_answer now (offline _) p = stop_with no_network p
claim_answer now (raised e) p = stop_with (said e) p

-- `!authToken`.
abbrev pub is_truthy : Option String → Bool
is_truthy none = false
is_truthy (some s) = not (str_eq s "")

-- The claim effect: the link's token, whether the page is in a secure context, the sign-in token.
unfoldable pub claim : String → Bool → Option String → ℕ → Answer Claimed → Page → Page
unfolding claim_answer stop_with
claim link secure auth now answer p =
    if str_eq link ""
    then stop_with no_code p
    else if not secure
    then stop_with not_secure p
    else if not (is_truthy auth)
    then stop_with sign_in (record p { is_auth_error = true })
    else claim_answer now answer p

-- `Math.max(0, Math.ceil((deadlineRef.current - Date.now()) / 1000))`.
unfoldable pub seconds_left : Option ℕ → ℕ → Option ℕ
seconds_left none now = none
seconds_left (some deadline) now = some ((deadline - now + 999) / 1000)

-- `left <= 0`, which is false of NaN.
abbrev pub is_over : Option ℕ → Bool
is_over none = false
is_over (some left) = left == 0

-- The interval, which runs while the phase is `verifying`.
unfoldable pub tick : ℕ → Page → Page
unfolding seconds_left
tick now p =
    if is_over (seconds_left p.deadline now)
    then record p { remaining = some 0; phase = expired; message = timed_out }
    else record p { remaining = seconds_left p.deadline now }

-- An update of the window's row, heard while the phase is `verifying`.
unfoldable pub window_updated : Bool → Page → Page
window_updated satisfied p = if satisfied then record p { phase = verified } else p

-- `captureAndVerify` before its first await: it ends with a hint, or goes on to submit. The width is that of
-- the video, 0 where there is none.
unfoldable pub capture_begin : ℕ → Page → Page
capture_begin width p =
    if width == 0
    then record p { note = some camera_starting }
    else if not (is_truthy p.window_id)
    then record p { note = some no_window }
    else record p { submitting = true; note = none }

-- The body of an answered `/v1/qr/verify`; one that cannot be decoded is not verified and has no reason.
pub record Verdict : Type 0 where
  pub verified : Bool
  pub reason : Option String

-- What became of a submission: no picture could be taken, nobody was signed in, or a request.
pub data Submission : Type 0 where
  no_picture signed_out : Submission
  sent : Answer Verdict → Submission

unfoldable pub hint : Text → Page → Page
hint text p = record p { note = some text }

-- The answer of `/v1/qr/verify`, on every status.
unfoldable pub verdict : Answer Verdict → Page → Page
unfolding hint stop_with or_else
verdict (accepted v) p =
    if v.verified then record p { phase = verified } else hint (or_else v.reason no_match) p
verdict (rejected status detail) p =
    if status == 410
    then record p { phase = expired; message = or_else detail window_expired }
    else if status == 403 || status == 404
    then stop_with (or_else detail could_not_verify) p
    else hint (or_else detail (http_status status)) p
verdict (offline e) p = hint (said e) p
verdict (raised e) p = hint (said e) p

-- `captureAndVerify` after its awaits, the `finally` included.
unfoldable pub capture_end : Submission → Page → Page
unfolding verdict hint
capture_end no_picture p = record (hint no_photo p) { submitting = false }
capture_end signed_out p = record (hint rescan p) { is_auth_error = true; submitting = false }
capture_end (sent answer) p = record (verdict answer p) { submitting = false }
