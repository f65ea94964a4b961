-- ===== src/ClaimPage/Runs.antt =====
-- The claim page over any interleaving of ticks, presses, updates of the window and replies.
use sensepro.Prelude.{
  ℕ, suc, ◌≡◌, String, Bool, true, false, ◌||◌, Option, arith, if◌then◌else◌, ◌⊎◌, ◌≢◌,
}
use sensepro.ClaimPage.{
  is_truthy, Phase, claiming, verifying, verified, expired, error, Answer, accepted, rejected,
  offline, raised, Claimed, Page, initial, claim, claim_answer, tick, window_updated, capture_begin,
  Submission, sent, no_picture, signed_out, capture_end, verdict, hint, stop_with, Verdict,
}
use sensepro.ClaimPage.Laws.{confirms}

-- The page, the submissions whose reply has not arrived, and whether the server has said, by a reply or
-- by an update of the window, that the face was matched.
pub record System : Type 0 where
  pub page : Page
  pub in_flight : ℕ
  pub confirmed : Bool

abbrev pub mounted : System
mounted = record { page = initial; in_flight = 0; confirmed = false }

-- The interval, the subscription and the button are there while the phase is `verifying`, the button
-- is disabled during a submission; replies arrive in any phase.
pub data Step (s : System) : System → Type 0 where
  claims :
      (link : String) (secure : Bool) (auth : Option String) (now : ℕ) (answer : Answer Claimed)
      → s.page.phase ≡ claiming
      → Step s (record s { page = claim link secure auth now answer s.page })
  ticks : (now : ℕ) → s.page.phase ≡ verifying → Step s (record s { page = tick now s.page })
  updated :
      (satisfied : Bool)
      → s.page.phase ≡ verifying
      → Step s (record s {
        page = window_updated satisfied s.page;
        confirmed = s.confirmed || satisfied;
      })
  pressed :
      (width : ℕ)
      → s.page.phase ≡ verifying
      → s.page.submitting ≡ false
      → Step s (record s {
        page = capture_begin width s.page;
        in_flight =
            if (capture_begin width s.page).submitting then suc s.in_flight else s.in_flight;
      })
  arrives :
      (n : ℕ) (sub : Submission)
      → s.in_flight ≡ suc n
      → Step s (record {
        page = capture_end sub s.page;
        in_flight = n;
        confirmed = s.confirmed || confirms sub;
      })

pub data Reach : System → Type 0 where
  start : Reach mounted
  later : {r s : System} → Reach r → Step r s → Reach s

-- The submission in flight is the one that `submitting` tells of and is made for a window with an id, and a
-- page that says verified has the server's word for it.
abbrev pub Confirmed : System → Type 0
Confirmed s =
    (s.in_flight ≡ (if s.page.submitting then 1 else 0))
    × (s.page.submitting ≡ true → is_truthy s.page.window_id ≡ true)
    × (s.page.phase ≡ verified → s.confirmed ≡ true)
    × (s.page.phase ≡ claiming → s.page.submitting ≡ false)

claim_answer-window :
    (now : ℕ) (answer : Answer Claimed) (p : Page)
    → let q : Page = claim_answer now answer p in
      (q.submitting ≡ p.submitting) × ((q.phase ≡ verifying) ⊎ (q.phase ≡ error))
unfolding claim_answer stop_with
claim_answer-window now (accepted c) p = ground arith
claim_answer-window now (rejected status detail) p = ground arith
claim_answer-window now (offline e) p = ground arith
claim_answer-window now (raised e) p = ground arith

-- The claim touches no submission, and ends with an open window or an error.
claim-window :
    (link : String) (secure : Bool) (auth : Option String) (now : ℕ) (answer : Answer Claimed)
    (p : Page)
    → let q : Page = claim link secure auth now answer p in
      (q.submitting ≡ p.submitting) × ((q.phase ≡ verifying) ⊎ (q.phase ≡ error))
unfolding claim stop_with
claim-window link secure auth now answer p = ground (arith, claim_answer-window now answer p)

Step-Confirmed : {r s : System} → Step r s → Confirmed r → Confirmed s
unfolding tick window_updated capture_begin capture_end verdict hint stop_with
Step-Confirmed {r} (claims link secure auth now answer c) inv =
    ground (arith, claim-window link secure auth now answer r.page)
Step-Confirmed {r} (ticks now v) inv = ground arith
Step-Confirmed {r} (updated satisfied v) inv = ground arith
Step-Confirmed {r} (pressed width v n) inv = ground arith
Step-Confirmed {r} (arrives n no_picture f) inv = ground arith
Step-Confirmed {r} (arrives n signed_out f) inv = ground arith
Step-Confirmed {r} (arrives n (sent (accepted v)) f) inv = ground arith
Step-Confirmed {r} (arrives n (sent (rejected status detail)) f) inv = ground arith
Step-Confirmed {r} (arrives n (sent (offline e)) f) inv = ground arith
Step-Confirmed {r} (arrives n (sent (raised e)) f) inv = ground arith

-- However the events interleave, the page says verified only after the server said that the face was
-- matched, and at most one submission is in flight, which is made for a window with an id.
pub Reach-Confirmed : {s : System} → Reach s → Confirmed s
Reach-Confirmed start = ground arith
Reach-Confirmed (later r st) = Step-Confirmed st (Reach-Confirmed r)

abbrev pub IsSettled : Phase → Type 0
IsSettled f = (f ≢ claiming) × (f ≢ verifying)

-- A page that is verified, expired or failed takes no further step when no submission is in flight.
pub settled-final :
    {s t : System} → Reach s → IsSettled s.page.phase → s.page.submitting ≡ false → ¬ Step s t
settled-final r (c, v) n (claims link secure auth now answer h) = c h
settled-final r (c, v) n (ticks now h) = v h
settled-final r (c, v) n (updated satisfied h) = v h
settled-final r (c, v) n (pressed width h m) = v h
settled-final r (c, v) n (arrives k sub f) = absurd (ground (arith, Reach-Confirmed r))

-- The reply of a submission is heard in every phase: one that was refused with 410 turns a page that
-- the camera of the room has verified to expired, and one that matched turns an expired
-- page to verified.
pub late_reply :
    (d : Option String) (v : Verdict) (p : Page)
    → ((capture_end (sent (rejected 410 d)) (window_updated true p)).phase ≡ expired)
      × (v.verified ≡ true → (capture_end (sent (accepted v)) p).phase ≡ verified)
unfolding capture_end verdict window_updated
late_reply d v p = ground arith
