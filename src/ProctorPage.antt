-- ===== src/ProctorPage.antt =====
-- routes/_shell.proctor.tsx: the page load, the queue of the chosen examination and the review of an event
-- in `ProctorPage`. The replies of the backend are arguments.
mod Tests
pub mod Chosen
pub mod Queue
use sensepro.Prelude.{
  String, Bool, true, false, not, ◌&&◌, Option, none, some, List, [], ◌∷◌, map, filter, any, find?,
  str_eq, if◌then◌else◌, is_some,
}
use sensepro.Prelude.Dict.{Dict, set, get}
use sensepro.Http.{Outcome, ok, err}
use sensepro.Proctor.{
  ProctorFlagRow, ReviewStatus, ExamSessionRow, Failure, Load, loading, ready, failed, is_pending,
}

pub data View : Type 0 where
  pending_view reviewed_view : View

pub record StudentName : Type 0 where
  pub id : String
  pub full_name : String

pub record Page : Type 0 where
  pub page_load : Load
  pub queue_load : Load
  pub sessions : List ExamSessionRow
  pub session : Option ExamSessionRow
  pub requested_missing : Bool
  pub names : Dict String
  pub flags : List ProctorFlagRow
  pub selected : Option String
  pub view : View
  pub busy_id : Option String

-- A text that may be missing; an empty one is falsy.
abbrev pub truthy : Option String → Bool
truthy none = false
truthy (some id) = not (str_eq id "")

abbrev pub is_listed : String → List ExamSessionRow → Bool
is_listed id rows = any (λ r. str_eq r.id id) rows

abbrev pub is_live : ExamSessionRow → Bool
is_live r = not (is_some r.ends_at)

unfoldable pub listed_sessions : Option ExamSessionRow → List ExamSessionRow → List ExamSessionRow
listed_sessions none exams = exams
listed_sessions (some r) exams = if is_listed r.id exams then exams else r ∷ exams

abbrev first_session : List ExamSessionRow → Option ExamSessionRow
first_session [] = none
first_session (r ∷ _) = some r

abbrev pub or_first : Option ExamSessionRow → List ExamSessionRow → Option ExamSessionRow
or_first (some r) _ = some r
or_first none rows = first_session rows

-- `listedSessions.find((row) => row.ends_at === null) ?? listedSessions[0] ?? null`.
unfoldable pub default_session : List ExamSessionRow → Option ExamSessionRow
default_session rows = or_first (find? is_live rows) rows

unfoldable pub names_of : List StudentName → Dict String → Dict String
names_of [] m = m
names_of (s ∷ students) m = names_of students (set s.id s.full_name m)

-- The rows that the three requests of the page answer; without a requested id the second one is not
-- sent.
pub record Answers : Type 0 where
  pub exams : List ExamSessionRow
  pub found : Option ExamSessionRow
  pub students : List StudentName

abbrev pub requested : Option String → Option ExamSessionRow → Option ExamSessionRow
requested id found = if truthy id then found else none

-- The first effect, before its requests.
unfoldable pub load_begin : Page → Page
load_begin p = record p { page_load = loading }

-- The first effect, once its requests have come back to a mounted page.
unfoldable pub load_end : Option String → Outcome Answers Failure → Page → Page
unfolding listed_sessions default_session names_of
load_end id (err e) p = record p { page_load = failed }
load_end id (ok a) p =
    let listed = listed_sessions (requested id a.found) a.exams in
    record p {
      sessions = listed;
      requested_missing = truthy id && not (is_some (requested id a.found));
      session = if truthy id then a.found else default_session listed;
      names = names_of a.students [];
      page_load = ready;
    }

-- The second effect, before its request.
unfoldable pub queue_begin : Page → Page
queue_begin p =
    if is_some p.session
    then record p { selected = none; queue_load = loading }
    else record p { flags = []; queue_load = ready }

-- The second effect, once its request has come back and it is not cancelled.
unfoldable pub queue_end : Outcome (List ProctorFlagRow) Failure → Page → Page
queue_end (ok rows) p = record p { flags = rows; queue_load = ready }
queue_end (err e) p = record p { queue_load = failed }

unfoldable pub replace_first : ProctorFlagRow → List ProctorFlagRow → List ProctorFlagRow
replace_first row [] = []
replace_first row (f ∷ fs) = if str_eq f.id row.id then row ∷ fs else f ∷ replace_first row fs

-- The channel's handler: a known event is replaced in place, a new one comes first.
unfoldable pub on_flag : ProctorFlagRow → Page → Page
unfolding replace_first
on_flag row p = record p {
  flags =
      if any (λ f. str_eq f.id row.id) p.flags then replace_first row p.flags else row ∷ p.flags;
}

abbrev pub in_view : View → ProctorFlagRow → Bool
in_view pending_view f = is_pending f.review_status
in_view reviewed_view f = not (is_pending f.review_status)

unfoldable pub visible_flags : Page → List ProctorFlagRow
visible_flags p = filter (in_view p.view) p.flags

abbrev is_selected : Option String → ProctorFlagRow → Bool
is_selected none f = false
is_selected (some id) f = str_eq f.id id

abbrev pub or_head : Option ProctorFlagRow → List ProctorFlagRow → Option ProctorFlagRow
or_head (some f) _ = some f
or_head none [] = none
or_head none (f ∷ _) = some f

unfoldable pub current : Page → Option ProctorFlagRow
unfolding visible_flags
current p = or_head (find? (is_selected p.selected) (visible_flags p)) (visible_flags p)

-- `resolve` before its request: ignored while a review is under way; an empty id is falsy.
unfoldable pub resolve_begin : String → Page → Page
resolve_begin id p = if truthy p.busy_id then p else record p { busy_id = some id }

abbrev pub judged : String → ReviewStatus → ProctorFlagRow → ProctorFlagRow
judged id verdict f = if str_eq f.id id then record f { review_status = verdict } else f

abbrev is_selected_id : String → Option String → Bool
is_selected_id id none = false
is_selected_id id (some s) = str_eq s id

-- `resolve` after its request; without a session the request is an error. `chosen` is the selection when the
-- review began, which the closure keeps.
unfoldable pub resolve_end :
    String → ReviewStatus → Option String → Outcome (Unit {0}) Failure → Page → Page
resolve_end id verdict chosen (ok _) p = record p {
  flags = map (judged id verdict) p.flags;
  selected = if is_selected_id id chosen then none else p.selected;
  busy_id = none;
}
resolve_end id verdict chosen (err e) p = record p { busy_id = none }

abbrev chosen_session : String → List ExamSessionRow → Option ExamSessionRow
chosen_session id rows = find? (λ r. str_eq r.id id) rows

-- The select element of the page.
unfoldable pub choose_session : String → Page → Page
choose_session id p = record p { view = pending_view; session = chosen_session id p.sessions }

abbrev name_or : Option String → String
name_or none = "Unresolved candidate record"
name_or (some name) = name

-- `candidateLabel`; an empty id is falsy.
unfoldable pub candidate_label : Option String → Dict String → String
candidate_label none names = "Unattributed track"
candidate_label (some id) names =
    if str_eq id "" then "Unattributed track" else name_or (get id names)
