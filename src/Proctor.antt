-- ===== src/Proctor.antt =====
-- The queue of exam events that wait for a review: `mergeFlags` and the state of
-- apps/web/src/components/ProctorReviewPanel.tsx, with `fetchExamSessions`, `fetchFlags`, `reviewFlag`
-- and the filter of `subscribeFlags` of apps/web/src/lib/data/proctor.ts. `parse` is `Date.parse`.
pub mod Merge
pub mod Queue
mod Tests
use sensepro.Prelude.{
  ℕ, ◌-◌, String, Bool, true, false, not, ◌&&◌, Option, none, some, List, [], ◌∷◌, filter, length,
  leb, find?, if◌then◌else◌, str_eq, is_some,
}
use sensepro.Prelude.Dict.{Dict, values}
use sensepro.Prelude.Sort.{sort}
use sensepro.Prelude.Upsert.{upsert_all}
use sensepro.Http.{Reply, replied, refused, thrown, Outcome, ok, err}
use sensepro.LiveRoster.{Mode, exam}
use sensepro.SessionTables.{same_mode}

pub data FlagType : Type 0 where
  phone extra_person head_pose other : FlagType

pub data ReviewStatus : Type 0 where
  pending dismissed upheld : ReviewStatus

pub record ProctorFlagRow : Type 0 where
  pub id : String
  pub session_id : String
  pub student_id : Option String
  pub flag_type : FlagType
  pub suppressed : Bool
  pub flagged_at : String
  pub review_status : ReviewStatus
  pub reviewed_by : Option String
  pub reviewed_at : Option String

pub record ExamSessionRow : Type 0 where
  pub id : String
  pub class_section : String
  pub subject : Option String
  pub mode : Mode
  pub starts_at : String
  pub ends_at : Option String

pub data Failure : Type 0 where
  not_loaded : ℕ → Failure
  review_failed : ℕ → Failure
  detail : String → Failure
  network : String → Failure

unfoldable pub fetch_exam_sessions :
    Reply (List ExamSessionRow) → Outcome (List ExamSessionRow) Failure
fetch_exam_sessions (replied found) = ok (filter (λ r. same_mode r.mode exam) found)
fetch_exam_sessions (refused status _) = err (not_loaded status)
fetch_exam_sessions (thrown e) = err (network e)

abbrev found_in :
    String → Outcome (List ExamSessionRow) Failure → Outcome (Option ExamSessionRow) Failure
found_in id (ok sessions) = ok (find? (λ r. str_eq r.id id) sessions)
found_in id (err e) = err e

unfoldable pub fetch_exam_session :
    String → Reply (List ExamSessionRow) → Outcome (Option ExamSessionRow) Failure
unfolding fetch_exam_sessions
fetch_exam_session id reply = found_in id (fetch_exam_sessions reply)

unfoldable pub fetch_flags : Reply (List ProctorFlagRow) → Outcome (List ProctorFlagRow) Failure
fetch_flags (replied found) = ok found
fetch_flags (refused status _) = err (not_loaded status)
fetch_flags (thrown e) = err (network e)

-- An empty detail is falsy.
unfoldable pub review_flag : Reply (Unit {0}) → Outcome (Unit {0}) Failure
review_flag (replied _) = ok tt
review_flag (refused status none) = err (review_failed status)
review_flag (refused status (some d)) = err (if str_eq d "" then review_failed status else detail d)
review_flag (thrown e) = err (network e)

-- The order of `sort((a, b) => Date.parse(b.flagged_at) - Date.parse(a.flagged_at))`.
abbrev pub newest_first : (String → ℕ) → String × ProctorFlagRow → String × ProctorFlagRow → Bool
newest_first parse e f = leb (parse f.1.flagged_at) (parse e.1.flagged_at)

unfoldable pub by_id : List ProctorFlagRow → List ProctorFlagRow → Dict ProctorFlagRow
by_id current incoming =
    upsert_all (λ r. r.id) (λ r _. r) incoming (upsert_all (λ r. r.id) (λ r _. r) current [])

unfoldable pub merge_flags :
    (String → ℕ) → List ProctorFlagRow → List ProctorFlagRow → List ProctorFlagRow
unfolding by_id
merge_flags parse current incoming = values (sort (newest_first parse) (by_id current incoming))

pub data Load : Type 0 where
  loading ready failed : Load

pub record Panel : Type 0 where
  pub session_id : Option String
  pub flags : List ProctorFlagRow
  pub load : Load
  pub live : Bool  -- as the channel last reported
  pub busy : Option String

-- The effect of a change of the session, or of a retry, before its request is answered.
unfoldable pub open_queue : Option String → Panel → Panel
open_queue none p = record p { session_id = none; flags = []; load = ready; live = false }
open_queue (some id) p = record p { session_id = some id; flags = []; load = loading; live = false }

-- The answer of that request, unless the effect was cancelled.
unfoldable pub loaded :
    (String → ℕ) → String → Outcome (List ProctorFlagRow) Failure → Panel → Panel
unfolding merge_flags
loaded parse id (ok found) p = record p {
  flags = merge_flags parse found (filter (λ r. str_eq r.session_id id) p.flags);
  load = ready;
}
loaded parse id (err e) p = record p { flags = []; load = failed }

abbrev upsert : (String → ℕ) → ProctorFlagRow → Panel → Panel
upsert parse row p = record p { flags = merge_flags parse p.flags (row ∷ []) }

-- A change that the realtime channel reports: a row with an id, not suppressed, of the session.
unfoldable pub on_change : (String → ℕ) → String → ProctorFlagRow → Panel → Panel
unfolding merge_flags
on_change parse id row p =
    if not (str_eq row.id "") && not row.suppressed && str_eq row.session_id id
    then upsert parse row p
    else p

abbrev pub is_pending : ReviewStatus → Bool
is_pending pending = true
is_pending _ = false

abbrev pub pending_flags : Panel → List ProctorFlagRow
pending_flags p = filter (λ f. is_pending f.review_status) p.flags

abbrev pub reviewed_count : Panel → ℕ
reviewed_count p = length p.flags - length (pending_flags p)

-- `review`: refused while another is under way or without a session.
unfoldable pub review_begin : ProctorFlagRow → Panel → Panel
review_begin flag p =
    if is_some p.busy
    then p
    else if is_some p.session_id
    then record p { busy = some flag.id }
    else p

unfoldable pub review_end :
    (String → ℕ) → ProctorFlagRow → ReviewStatus → Outcome (Unit {0}) Failure → Panel → Panel
unfolding merge_flags
review_end parse flag status (ok _) p =
    record (upsert parse (record flag { review_status = status }) p) { busy = none }
review_end parse flag status (err e) p = record p { busy = none }

-- What can happen to the panel: the examination changes or is retried, its request is answered, the
-- channel reports a change or its state, a review begins or ends.
pub data PanelEvent : Type 0 where
  opened : Option String → PanelEvent
  answered : Outcome (List ProctorFlagRow) Failure → PanelEvent
  changed : ProctorFlagRow → PanelEvent
  channel : Bool → PanelEvent
  review_started : ProctorFlagRow → PanelEvent
  review_ended : ProctorFlagRow → ReviewStatus → Outcome (Unit {0}) Failure → PanelEvent

abbrev pub for_session : (String → Panel → Panel) → Option String → Panel → Panel
for_session f none p = p
for_session f (some id) p = f id p

unfoldable pub panel_step : (String → ℕ) → PanelEvent → Panel → Panel
unfolding open_queue loaded on_change review_begin review_end
panel_step parse (opened session) p = open_queue session p
panel_step parse (answered reply) p = for_session (λ id. loaded parse id reply) p.session_id p
panel_step parse (changed row) p = for_session (λ id. on_change parse id row) p.session_id p
panel_step parse (channel live) p = record p { live = live }
panel_step parse (review_started flag) p = review_begin flag p
panel_step parse (review_ended flag status reply) p = review_end parse flag status reply p

unfoldable pub panel_run : (String → ℕ) → List PanelEvent → Panel → Panel
panel_run parse [] p = p
panel_run parse (e ∷ es) p = panel_run parse es (panel_step parse e p)
