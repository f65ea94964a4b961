-- ===== src/ClaimPage/Laws.antt =====
-- What one event of the claim page does, on every branch.
use sensepro.Prelude.{
  ℕ, ◌+◌, ◌-◌, ◌||◌, ◌==◌, ◌*◌, ◌≤◌, ◌≡◌, ◌⊎◌, ◌↔◌, String, Bool, true, false, Option, none, some,
  arith, is_some, str_eq,
}
use sensepro.ClaimPage.{
  is_truthy, verifying, verified, expired, error, Answer, accepted, rejected, offline, raised,
  Claimed, Page, claim, claim_answer, seconds_left, tick, Submission, no_picture, signed_out, sent,
  capture_end, verdict, hint, stop_with,
}

-- The tick closes an open window exactly when its deadline has come; before, it shows the seconds
-- left, rounded up, and leaves it open.
pub tick-expired_iff :
    (now deadline : ℕ) (p : Page)
    → p.phase ≡ verifying
    → p.deadline ≡ some deadline
    → (((tick now p).phase ≡ expired) ↔ (deadline ≤ now))
      × (((tick now p).phase ≡ verifying) ⊎ ((tick now p).phase ≡ expired))
      × ((left : ℕ)
          → (tick now p).remaining ≡ some left
          → (deadline ≤ now + left * 1000) × (left * 1000 ≤ (deadline - now) + 999))
unfolding tick seconds_left
tick-expired_iff now deadline p v d =
    (ground (arith, v, d), ground (arith, v, d), λ left r. ground (arith, v, d, r))

-- Without a deadline, after a claim whose answer could not be decoded, the window never closes by itself.
pub tick-undecoded :
    (now : ℕ) (p : Page)
    → p.phase ≡ verifying
    → p.deadline ≡ none
    → ((tick now p).phase ≡ verifying) × ((tick now p).deadline ≡ none)
unfolding tick seconds_left
tick-undecoded now p v d = ground (arith, v, d)

abbrev pub is_accepted {ℓ} : {A : Type ℓ} → Answer A → Bool
is_accepted (accepted a) = true
is_accepted _ = false

claim_answer-phase :
    (now : ℕ) (answer : Answer Claimed) (p : Page)
    → (((claim_answer now answer p).phase ≡ verifying) ↔ (is_accepted answer ≡ true))
      × (((claim_answer now answer p).phase ≡ verifying)
          ⊎ ((claim_answer now answer p).phase ≡ error))
unfolding claim_answer stop_with
claim_answer-phase now (accepted c) p = ground arith
claim_answer-phase now (rejected status detail) p = ground arith
claim_answer-phase now (offline e) p = ground arith
claim_answer-phase now (raised e) p = ground arith

-- The claim opens the window exactly for a link with a token, in a secure context, with somebody
-- signed in, whose request is accepted; in every other case the page stops with an error.
pub claim-verifying_iff :
    (link : String) (secure : Bool) (auth : Option String) (now : ℕ) (answer : Answer Claimed)
    (p : Page)
    → (((claim link secure auth now answer p).phase ≡ verifying) ↔ (
        (str_eq link "" ≡ false)
        × (secure ≡ true)
        × (is_truthy auth ≡ true)
        × (is_accepted answer ≡ true)))
      × (((claim link secure auth now answer p).phase ≡ verifying)
          ⊎ ((claim link secure auth now answer p).phase ≡ error))
unfolding claim stop_with
claim-verifying_iff link secure auth now answer p = ground (arith, claim_answer-phase now answer p)

-- The server's word that a face was matched.
abbrev pub confirms : Submission → Bool
confirms (sent (accepted v)) = v.verified
confirms _ = false

abbrev pub refused_with : ℕ → Submission → Bool
refused_with n (sent (rejected status detail)) = status == n
refused_with n _ = false

-- Every submission ends with its button enabled again. It settles the page as verified if the server
-- says that the face matched, as expired on a 410 and as failed on a 403 or a 404; in all other
-- cases it leaves the phase and shows a hint.
pub capture_end-phase :
    (sub : Submission) (p : Page)
    → ((capture_end sub p).submitting ≡ false)
      × (confirms sub ≡ true → (capture_end sub p).phase ≡ verified)
      × (refused_with 410 sub ≡ true → (capture_end sub p).phase ≡ expired)
      × (refused_with 403 sub || refused_with 404 sub ≡ true → (capture_end sub p).phase ≡ error)
      × (confirms sub ≡ false
          → refused_with 410 sub ≡ false
          → refused_with 403 sub || refused_with 404 sub ≡ false
          → ((capture_end sub p).phase ≡ p.phase) × (is_some (capture_end sub p).note ≡ true))
unfolding capture_end verdict hint stop_with
capture_end-phase no_picture p = ground arith
capture_end-phase signed_out p = ground arith
capture_end-phase (sent (accepted v)) p = ground arith
capture_end-phase (sent (rejected status detail)) p = ground arith
capture_end-phase (sent (offline e)) p = ground arith
capture_end-phase (sent (raised e)) p = ground arith
