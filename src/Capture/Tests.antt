-- ===== src/Capture/Tests.antt =====
-- The roster and the messages of the capture page at small frames.
use sensepro.Prelude.{ℕ, ◌≡◌, refl, String, Bool, true, false, Option, none, some, List, [], ◌∷◌}
use sensepro.Prelude.Dict.{Dict, get}
use sensepro.Capture.Types.{
  exam, camera, qr, Box, WsFace, bare, SessionRosterEntry, NameEntry, TrackVis, WsProctor, leave,
}
use sensepro.Capture.Roster.{
  Marks, update_exam_candidates, lecture_present, mark_student_present, merge_attended,
}
use sensepro.Capture.Roster.Laws.{Kept, roster-Kept}
use sensepro.Capture.Messages.{handle_message, see_exam, log_flags}
use sensepro.Capture.Page.{Page, Message, result}
use sensepro.Capture.Messages.Modes.{after}

abbrev names : Dict NameEntry
names = ("s1", record { name = "Ann"; reg_no = "R1" }) ∷ []

abbrev seen_at : String → ℕ → Bool → SessionRosterEntry
seen_at id t is_live = record {
  student_id = id;
  name = id;
  reg_no = id;
  first_seen_ts = 5;
  last_seen_ts = t;
  is_live = is_live;
  via = some camera;
}

abbrev roster : Dict SessionRosterEntry
roster = ("s1", seen_at "s1" 5 true) ∷ ("s2", seen_at "s2" 5 true) ∷ []

abbrev frame : List (Option String)
frame = some "s2" ∷ none ∷ some "" ∷ some "s3" ∷ []

abbrev no_marks : Marks
no_marks = record { attended = []; roster = []; toasts = [] }

roster-Kept_example :
    let e = seen_at "s1" 5 true in
    Kept "s1" e (update_exam_candidates names 9 frame roster)
    × Kept "s1" e
        (mark_student_present names 9 "s1" qr (record no_marks { roster = roster })).roster
    × Kept "s1" e (lecture_present names 9 (bare "s2" ∷ []) [] roster).roster
    × Kept "s1" e (merge_attended names 9 ("s3" ∷ []) [] roster).1
unfolding get
roster-Kept_example =
    roster-Kept names 9 "s1" (seen_at "s1" 5 true) roster frame qr "s1" no_marks (bare "s2" ∷ []) []
      ("s3" ∷ []) [] refl

abbrev box : Box
box = record { left = 0; top = 0; right = 10; bottom = 10 }

abbrev still : Box → Box → ℕ → Box
still from to ms = to

abbrev face : ℕ → Option String → WsFace
face id student = record { box = box; student_id = student; score = 90; track_id = id }

abbrev faces : List WsFace
faces = face 1 (some "s1") ∷ face 2 none ∷ []

abbrev track : ℕ → ℕ → TrackVis
track id t = record {
  prev = box;
  target = box;
  target_ts = t;
  appear_ts = t;
  label_appear_ts = t;
  student_id = none;
  score = 0;
  track_id = id;
  last_seen_ts = t;
}

abbrev tracks : List TrackVis
tracks = track 1 100 ∷ track 7 100 ∷ []

abbrev flagged : WsProctor
flagged = record {
  detections = [];
  flags =
      record {
        flag_type = "phone";
        student_id = some "s1";
        id = none;
        flagged_at = none;
        ts = none;
      }
      ∷ [];
  backend = none;
  ready = some true;
  production = none;
  poses = [];
}

abbrev message : Message
message = result (record {
  ts = 9;
  faces = faces;
  present = some (bare "s1" ∷ []);
  transitions =
      record {
        kind = some leave;
        state = none;
        student_id = some "s1";
        name = none;
        reg_no = none;
        track_id = none;
        ts = none;
      }
      ∷ [];
  attended = some ("s1" ∷ []);
  proctor = some flagged;
  engagement = none;
  sent_size = none;
})

abbrev page : Page
page = record {
  inflight = 1;
  end_ack = false;
  pipeline_error = none;
  stale = true;
  sent = (640, 480);
  last_result_at = 0;
  visible_faces = 0;
  tracks = tracks;
  rows = [];
  first_seen = [];
  roster = roster;
  attended = "s2" ∷ [];
  toasts = [];
  exam_mode = false;
  dets = [];
  dets_at = 0;
  proctor_live = record {
    phone = false;
    phone_owner = none;
    backend = none;
    ready = none;
    production = none;
    poses = [];
  };
  proctor_flags = [];
  engagement = none;
}

-- The same message is one exam event in an exam.
see_exam_test :
    (after still names 9 2000 exam message page).proctor_flags
    ≡ record { type = "phone"; name = some "Ann"; ts = 9 } ∷ []
unfolding handle_message see_exam log_flags get
see_exam_test = refl
