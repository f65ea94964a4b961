-- ===== src/Capture/RtspPoll.antt =====
-- apps/web/src/routes/capture.tsx: the poll of an RTSP session's status, whose inference runs in the
-- backend. The reply, the clocks, `Date.parse`, `JSON.stringify` and `crypto.randomUUID` are arguments.
pub mod Log
mod Tests
use sensepro.Prelude.{
  ℕ, suc, String, Bool, true, false, not, ◌&&◌, Option, none, some, List, [], ◌∷◌, ◌++◌, map,
  filter, take, any, length, ltb, ◌==◌, str_eq, if◌then◌else◌, get_or_default,
}
use sensepro.Prelude.Dict.{Dict}
use sensepro.Http.{Reply, replied, refused, thrown}
use sensepro.Capture.Types.{
  SessionMode, exam, WsProctor, WsProctorFlag, WsEngagement, ProctorAlert, NameEntry,
}
use sensepro.Capture.Roster.{update_exam_candidates}
use sensepro.Capture.Page.{Page}
use sensepro.Capture.Messages.{name_of, live_state}

pub record RtspPayload : Type 0 where
  pub status : Option String
  pub running : Option Bool
  pub error : Option String
  pub proctor : Option WsProctor
  pub engagement : Option WsEngagement

-- `rtspStatusError`.
pub data PollError : Type 0 where
  status_code : ℕ → PollError
  message : String → PollError

-- An entry of `proctorFlags` with its id.
pub record Logged : Type 0 where
  pub id : String
  pub alert : ProctorAlert

-- What the poll writes: the status, the log of flags, the signature of the last flags, the page.
pub record Poll : Type 0 where
  pub status : Option String
  pub error : Option PollError
  pub log : List Logged
  pub signature : String
  pub page : Page

-- What an answer is read with: the names, the wall clock in milliseconds and in seconds, the page's
-- clock, the seconds of an ISO time, the text of the flags, and a new id for the flag at an index.
pub record Reading : Type 0 where
  pub names : Dict NameEntry
  pub clock : ℕ
  pub clock_s : ℕ
  pub now : ℕ
  pub parse_s : String → ℕ
  pub signature_of : List WsProctorFlag → String
  pub new_id : ℕ → String

-- `flag.flagged_at ? Date.parse(flag.flagged_at) / 1000 : (flag.ts ?? Date.now() / 1000)`.
unfoldable pub flag_time : Reading → WsProctorFlag → ℕ
flag_time r f = elim f.flagged_at [
  | none ↦ get_or_default f.ts r.clock_s
  | some at ↦ if str_eq at "" then get_or_default f.ts r.clock_s else r.parse_s at
]

unfoldable pub additions : Reading → ℕ → List WsProctorFlag → List Logged
unfolding flag_time
additions r i [] = []
additions r i (f ∷ fs) =
    record {
      id = get_or_default f.id (r.new_id i);
      alert = record {
        type = f.flag_type;
        name = name_of r.names f.student_id;
        ts = flag_time r f;
      };
    }
    ∷ additions r (suc i) fs

abbrev pub has_id : String → List Logged → Bool
has_id id log = any (λ l. str_eq l.id id) log

-- `[...additions, ...previous.filter((flag) => !ids.has(flag.id))].slice(0, 50)`.
unfoldable pub merge_log : List Logged → List Logged → List Logged
merge_log new previous = take 50 (new ++ filter (λ l. not (has_id l.id new)) previous)

-- `if (flags.length > 0 && signature !== lastRtspFlagSignatureRef.current)`.
unfoldable pub log_flags : Reading → List WsProctorFlag → Poll → Poll
unfolding additions merge_log
log_flags r flags p =
    if ltb 0 (length flags) && not (str_eq (r.signature_of flags) p.signature)
    then record p { signature = r.signature_of flags; log = merge_log (additions r 0 flags) p.log }
    else p

unfoldable pub see_proctor : Reading → SessionMode → Option WsProctor → Poll → Poll
unfolding log_flags
see_proctor r exam (some w) p = log_flags r w.flags (record p {
  page = record (p.page) {
    exam_mode = true;
    dets = w.detections;
    dets_at = r.now;
    proctor_live = live_state r.names w;
    roster = update_exam_candidates r.names r.clock (map (λ s. s.student_id) w.poses) p.page.roster;
  };
})
see_proctor r _ _ p = p

unfoldable pub see_engagement : Option WsEngagement → Poll → Poll
see_engagement none p = p
see_engagement (some e) p = record p {
  page = record (p.page) { engagement = some e; visible_faces = e.visible };
}

-- `payload.status ?? (payload.running === false ? "stopped" : "running")`.
unfoldable pub status_of : RtspPayload → String
status_of a = elim a.status [
  | some s ↦ s
  | none ↦ elim a.running [ none ↦ "running" | some on ↦ if on then "running" else "stopped" ]
]

abbrev error_of : Option String → Option PollError
error_of none = none
error_of (some e) = some (message e)

-- `poll`, once its reply has arrived and the effect was not cancelled. An older backend answers 404.
unfoldable pub poll_end : Reading → SessionMode → Reply RtspPayload → Poll → Poll
unfolding see_proctor see_engagement status_of
poll_end r mode (replied a) p = see_engagement a.engagement (
    see_proctor r mode a.proctor
      (record p { status = some (status_of a); error = error_of a.error }))
poll_end r mode (refused code _) p =
    if code == 404 then p else record p { error = some (status_code code) }
poll_end r mode (thrown e) p = record p { error = some (message e) }
