-- ===== src/ProctorPage/Tests.antt =====
-- A proctor page with two examinations and an event that is judged.
use sensepro.Prelude.{◌≡◌, refl, true, false, not, none, some, List, [], ◌∷◌, is_some}
use sensepro.Http.{ok}
use sensepro.LiveRoster.{exam}
use sensepro.Proctor.{ProctorFlagRow, ExamSessionRow, phone, pending, upheld, loading}
use sensepro.ProctorPage.{
  Page, Answers, pending_view, truthy, load_end, queue_end, on_flag, replace_first, resolve_begin,
  resolve_end,
}
use sensepro.ProctorPage.Chosen.{listed_if_some, live_if_some, is_empty, load_end-session}
use sensepro.ProctorPage.Queue.{
  Event, queue_answered, flag_changed, resolve_started, resolve_ended, run, step, ids_of, Unique,
  run-Unique,
}

abbrev over : ExamSessionRow
over = record {
  id = "x1";
  class_section = "MCA-4B";
  subject = none;
  mode = exam;
  starts_at = "09:00";
  ends_at = some "10:00";
}

abbrev live : ExamSessionRow
live = record over { id = "x2"; ends_at = none }

abbrev seen : ProctorFlagRow
seen = record {
  id = "f1";
  session_id = "x2";
  student_id = none;
  flag_type = phone;
  suppressed = false;
  flagged_at = "09:10";
  review_status = pending;
  reviewed_by = none;
  reviewed_at = none;
}

abbrev start : Page
start = record {
  page_load = loading;
  queue_load = loading;
  sessions = [];
  session = none;
  requested_missing = false;
  names = [];
  flags = [];
  selected = none;
  view = pending_view;
  busy_id = none;
}

abbrev answers : Answers
answers = record { exams = over ∷ live ∷ []; found = none; students = [] }

abbrev review : List Event
review =
    queue_answered (ok (seen ∷ []))
    ∷ flag_changed (record seen { id = "f2" })
    ∷ resolve_started "f1"
    ∷ resolve_ended "f1" upheld (some "f1") (ok tt)
    ∷ []

reviewed : ids_of (run review start).flags ≡ "f2" ∷ "f1" ∷ []
unfolding run step queue_end on_flag resolve_begin resolve_end replace_first
reviewed = refl

load_end-session_example :
    (listed_if_some
        (load_end none (ok answers) start).sessions
        (load_end none (ok answers) start).session
      ≡ true)
    × (truthy none ≡ true
        → ((load_end none (ok answers) start).session ≡ answers.found)
          × ((load_end none (ok answers) start).requested_missing ≡ not (is_some answers.found)))
    × (truthy none ≡ false
        → ((load_end none (ok answers) start).requested_missing ≡ false)
          × (is_some (load_end none (ok answers) start).session
              ≡ not (is_empty (load_end none (ok answers) start).sessions))
          × (live_if_some
                (load_end none (ok answers) start).sessions
                (load_end none (ok answers) start).session
              ≡ true))
load_end-session_example = load_end-session none answers start

run-Unique_example : Unique (ids_of (run review start).flags)
run-Unique_example = run-Unique review start ((refl, tt), (tt, (tt, (tt, tt)))) tt
