-- ===== src/StartPage/Tests.antt =====
-- Launching an examination.
use sensepro.Prelude.{String, ◌≡◌, ◌↔◌, ◌||◌, true, false, is_some, str_eq}
use sensepro.Http.{replied, is_replied}
use sensepro.Capture.Types.{exam}
use sensepro.Capture.Starting.{is_lecture}
use sensepro.StartPage.{Form, launch, answered_id, session_of, launch-opened_iff}

abbrev midterm : Form
midterm = record { mode = exam; section = "MCA-4B"; title = ""; room = "R1" }

launch-opened_iff_example :
    ((is_some (launch midterm (replied "s1")).opened ≡ true) ↔ (
      (str_eq midterm.section "" ≡ false)
      × (is_lecture midterm.mode || is_replied {A = String} (replied "s1") ≡ true)))
    × ((launch midterm (replied "s1")).busy ≡ is_some (launch midterm (replied "s1")).opened)
    × (str_eq midterm.section "" ≡ false
        → session_of (launch midterm (replied "s1")).opened ≡ answered_id (replied "s1"))
launch-opened_iff_example = launch-opened_iff midterm (replied "s1")
