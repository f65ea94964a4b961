-- ===== src/Capture/Messages.antt =====
-- apps/web/src/routes/capture.tsx, `handleWsMessage`: what one message of the capture socket does to
-- the page. A message that is no JSON object of a known type changes nothing.
pub mod Modes
pub mod Caps
pub mod Tracks
use sensepro.Prelude.{
  ℕ, ◌-◌, String, Bool, true, false, Option, none, some, List, [], ◌∷◌, map, if◌then◌else◌, str_eq,
  get_or_default, find?, length, is_some, take,
}
use sensepro.Prelude.Dict.{Dict, get}
use sensepro.Capture.Types.{
  SessionMode, lecture, exam, workshop, Kind, enter, leave, recognised, Presence, present, absent,
  Box, WsPresent, WsTransition, WsProctorDet, WsProctorFlag, WsProctor, WsResult, ProctorAlert,
  ProctorLiveState, NameEntry, Toast, entered_view, recognised_now, left_view, candidate_event,
}
use sensepro.Capture.Roster.{
  name_or, push_toast, update_exam_candidates, lecture_present, merge_attended,
}
use sensepro.Capture.Page.{
  Effect, Message, Page, acknowledge, close_socket, error, known, other, result, session_ended,
  update_tracks,
}

abbrev is_lecture : SessionMode → Bool
is_lecture lecture = true
is_lecture _ = false

abbrev is_exam : SessionMode → Bool
is_exam exam = true
is_exam _ = false

abbrev pub name_of : Dict NameEntry → Option String → Option String
name_of names id = elim (if known id then id else none) [
  | none ↦ none
  | some sid ↦ some (name_or (get sid names) sid)
]

abbrev pub transition_name : Dict NameEntry → WsTransition → String
transition_name names t = get_or_default t.name (get_or_default (name_of names t.student_id) "")

abbrev kind_of_state : Option Presence → Option Kind
kind_of_state none = none
kind_of_state (some present) = some recognised
kind_of_state (some absent) = some leave

abbrev pub transition_kind : WsTransition → Option Kind
transition_kind t = elim t.kind [ none ↦ kind_of_state t.state | some k ↦ some k ]

abbrev pub kind_toast : String → Kind → Toast
kind_toast name enter = entered_view name
kind_toast name recognised = recognised_now name
kind_toast name leave = left_view name

abbrev pub transition_toast : String → Option Kind → List Toast → List Toast
transition_toast name none toasts = toasts
transition_toast name (some k) toasts =
    if str_eq name "" then toasts else push_toast toasts (kind_toast name k)

unfoldable pub show_transitions : Dict NameEntry → List WsTransition → List Toast → List Toast
show_transitions names [] toasts = toasts
show_transitions names (t ∷ ts) toasts =
    show_transitions names ts
      (transition_toast (transition_name names t) (transition_kind t) toasts)

-- The flags raised in this frame: the log keeps the newest fifty.
unfoldable pub log_flags :
    Dict NameEntry
    → ℕ
    → List WsProctorFlag
    → List ProctorAlert
    → List Toast
    → List ProctorAlert × List Toast
log_flags names now [] log toasts = (log, toasts)
log_flags names now (f ∷ fs) log toasts =
    let name = name_of names f.student_id in
    log_flags names now fs (record { type = f.flag_type; name = name; ts = now } ∷ take 49 log)
      (push_toast toasts (candidate_event f.flag_type name))

abbrev phone_owner : Dict NameEntry → Option WsProctorDet → Option String
phone_owner names none = none
phone_owner names (some d) = name_of names d.student_id

abbrev pub live_state : Dict NameEntry → WsProctor → ProctorLiveState
live_state names p =
    let phone_det = find? (λ d. str_eq d.label "cell phone") p.detections in
    record {
      phone = is_some phone_det;
      phone_owner = phone_owner names phone_det;
      backend = p.backend;
      ready = p.ready;
      production = p.production;
      poses = p.poses;
    }

-- What of a result each mode reads. `clock` is the wall clock, `now` the page's.
module _ (names : Dict NameEntry) (clock now : ℕ) where
  abbrev pub see_present : Option (List WsPresent) → Page → Page
  see_present none p = p
  see_present (some msg) p =
      let after = lecture_present names clock msg p.first_seen p.roster in
      record p { rows = after.rows; first_seen = after.first_seen; roster = after.roster }

  abbrev pub see_attended : Option (List String) → Page → Page
  see_attended none p = p
  see_attended (some ids) p =
      let (attended, roster) = merge_attended names clock ids p.attended p.roster in
      record p { attended = attended; roster = roster }

  unfoldable pub see_lecture : WsResult → Page → Page
  see_lecture msg p =
      let q = see_attended msg.attended (see_present msg.present p) in
      record q { toasts = show_transitions names msg.transitions q.toasts }

  abbrev pub see_candidates : WsResult → Page → Page
  see_candidates msg p = record p {
    roster = update_exam_candidates names clock (map (λ f. f.student_id) msg.faces) p.roster;
  }

  abbrev pub see_proctor : Option WsProctor → Page → Page
  see_proctor none p = p
  see_proctor (some w) p =
      let (flags, toasts) = log_flags names clock w.flags p.proctor_flags p.toasts in
      record p {
        exam_mode = true;
        dets = w.detections;
        dets_at = now;
        proctor_live = live_state names w;
        proctor_flags = flags;
        toasts = toasts;
      }

  unfoldable pub see_exam : WsResult → Page → Page
  see_exam msg p = see_proctor msg.proctor (see_candidates msg p)

  abbrev pub see_mode : SessionMode → WsResult → Page → Page
  see_mode lecture msg p = see_lecture msg p
  see_mode exam msg p = see_exam msg p
  see_mode workshop msg p = p

abbrev newer {ℓ} : {A : Type ℓ} → Option A → Option A → Option A
newer none old = old
newer (some a) old = some a

-- The part of a result that every mode reads.
abbrev pub see_frame : (Box → Box → ℕ → Box) → ℕ → WsResult → Page → Page
see_frame interpolate now msg p = record p {
  sent = get_or_default msg.sent_size p.sent;
  pipeline_error = none;
  last_result_at = now;
  visible_faces = length msg.faces;
  tracks = update_tracks interpolate now msg.faces p.tracks;
  stale = false;
  engagement = newer msg.engagement p.engagement;
}

abbrev pub answered : Page → Page
answered p = record p { inflight = p.inflight - 1 }

abbrev fatal_error : SessionMode → Option String → Page → Page
fatal_error mode detail p = record p {
  pipeline_error = some (get_or_default detail "Inference pipeline failed");
  stale = true;
  proctor_live =
      if is_exam mode then record (p.proctor_live) { ready = some false } else p.proctor_live;
}

unfoldable pub handle_message :
    (Box → Box → ℕ → Box)
    → Dict NameEntry
    → SessionMode
    → ℕ
    → ℕ
    → Message
    → Page
    → Page × List Effect
handle_message interpolate names mode clock now (session_ended persisted warning window) p =
    if p.end_ack
    then (record p { end_ack = false }, acknowledge persisted warning window ∷ [])
    else (p, [])
handle_message interpolate names mode clock now (error fatal detail) p =
    if fatal
    then (fatal_error mode detail (answered p), close_socket 1011 ∷ [])
    else (answered p, [])
handle_message interpolate names mode clock now (result msg) p =
    (see_mode names clock now mode msg (see_frame interpolate now msg (answered p)), [])
handle_message interpolate names mode clock now other p = (p, [])
