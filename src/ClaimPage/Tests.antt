-- ===== src/ClaimPage/Tests.antt =====
-- The claim page of a student at concrete times.
use sensepro.Prelude.{refl, false, true, none, some}
use sensepro.ClaimPage.{
  verifying, verified, accepted, rejected, Claimed, Page, initial, claim, claim_answer,
  capture_begin, capture_end, Submission, sent, said, verdict, Verdict,
}
use sensepro.ClaimPage.Runs.{
  System, mounted, claims, pressed, arrives, Reach, start, later, Confirmed, Reach-Confirmed,
  IsSettled,
}

abbrev claimed : Claimed
claimed = record { window_id = some "w1"; seconds = some 30; text = some "Show your face" }

abbrev open_page : Page
open_page = record initial {
  phase = verifying;
  message = said "Show your face";
  remaining = some 30;
  window_id = some "w1";
  deadline = some 31000;
}

abbrev gone : Submission
gone = sent (rejected 410 none)

abbrev matched : Verdict
matched = record { verified = true; reason = none }

-- Claimed at 1000, pressed with a camera that is up, answered with a match.
abbrev opened : System
opened = record mounted { page = open_page }

abbrev submitted : System
submitted = record {
  page = record open_page { submitting = true };
  in_flight = 1;
  confirmed = false;
}

abbrev done : System
done = record { page = record open_page { phase = verified }; in_flight = 0; confirmed = true }

submitted-Reach : Reach submitted
unfolding claim claim_answer capture_begin
submitted-Reach =
    later (later start (claims "t" true (some "jwt") 1000 (accepted claimed) refl))
      (pressed 640 refl refl)

done-Reach : Reach done
unfolding capture_end verdict
done-Reach = later submitted-Reach (arrives 0 (sent (accepted matched)) refl)

Reach-Confirmed_example : Confirmed done
Reach-Confirmed_example = Reach-Confirmed done-Reach

done-IsSettled : IsSettled verified
done-IsSettled = (λ e. cc, λ e. cc)
