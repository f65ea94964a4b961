-- ===== src/Capture/RtspPoll/Tests.antt =====
-- A poll that reports two flags.
use sensepro.Prelude.{refl, true, false, none, some, List, [], ◌∷◌, String, All, arith}
use sensepro.Http.{Reply, replied, refused}
use sensepro.Capture.Types.{exam, WsProctorFlag}
use sensepro.Capture.Page.{Page}
use sensepro.Capture.RtspPoll.{RtspPayload, Poll, Reading, additions}
use sensepro.Capture.RtspPoll.Log.{IsLog, AreDistinct, poll_run, poll_run-IsLog}

abbrev flag_with : String → WsProctorFlag
flag_with id = record {
  flag_type = "phone";
  student_id = none;
  id = some id;
  flagged_at = none;
  ts = some 4;
}

abbrev two_flags : RtspPayload
two_flags = record {
  status = none;
  running = some true;
  error = none;
  proctor = some (record {
    detections = [];
    flags = flag_with "f1" ∷ flag_with "f2" ∷ [];
    backend = none;
    ready = none;
    production = none;
    poses = [];
  });
  engagement = none;
}

abbrev reading : Reading
reading = record {
  names = [];
  clock = 9000;
  clock_s = 9;
  now = 100;
  parse_s = λ t. 0;
  signature_of = λ fs. "sig";
  new_id = λ i. "fresh";
}

abbrev poll_of : Page → Poll
poll_of p = record { status = none; error = none; log = []; signature = ""; page = p }

abbrev page : Page
page = record {
  inflight = 0;
  end_ack = false;
  pipeline_error = none;
  stale = false;
  sent = (640, 480);
  last_result_at = 0;
  visible_faces = 0;
  tracks = [];
  rows = [];
  first_seen = [];
  roster = [];
  attended = [];
  toasts = [];
  exam_mode = true;
  dets = [];
  dets_at = 0;
  proctor_live = record {
    phone = false;
    phone_owner = none;
    backend = none;
    ready = none;
    production = none;
    poses = [];
  };
  proctor_flags = [];
  engagement = none;
}

abbrev answers : List (Reading × Reply RtspPayload)
answers = (reading, replied two_flags) ∷ (reading, refused 404 none) ∷ []

answers-AreDistinct : All AreDistinct answers
unfolding additions
answers-AreDistinct = ((refl, (refl, tt)), (tt, tt))

poll_run-IsLog_example : IsLog (poll_run exam answers (poll_of page)).log
poll_run-IsLog_example =
    poll_run-IsLog exam answers (poll_of page) answers-AreDistinct (omega arith, tt)
