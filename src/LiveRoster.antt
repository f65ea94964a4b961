-- ===== src/LiveRoster.antt =====
-- The teacher's live roster: apps/web/src/lib/data/roster.ts and the state of
-- apps/web/src/routes/_shell.teacher.tsx that it feeds. `parse` is `Date.parse` on the timestamps of
-- the database, in milliseconds; durations stay in milliseconds, where the source divides by 1000.
pub mod Derive
pub mod Changes
mod Tests
use sensepro.Prelude.{
  ℕ, ◌+◌, ◌-◌, String, Bool, true, false, Option, none, some, List, [], ◌∷◌, map, if◌then◌else◌,
  str_eq, get_or_default, get_last?, sum_by, filter, length, find?,
}
use sensepro.Prelude.Dict.{Dict, get, set, group_by, values}
use sensepro.Http.{Reply, replied, Query, rows, failed, Outcome, ok, err, api_or_database}

pub data AttendanceState : Type 0 where
  present unverified absent : AttendanceState

pub data Mode : Type 0 where
  lecture exam workshop : Mode

pub data Via : Type 0 where
  camera qr override : Via

pub record ActiveSession : Type 0 where
  pub id : String
  pub class_section : String
  pub subject : Option String
  pub mode : Mode
  pub starts_at : String

pub record StudentRow : Type 0 where
  pub id : String
  pub reg_no : String
  pub full_name : String

pub record IntervalRow : Type 0 where
  pub id : String
  pub session_id : String
  pub student_id : String
  pub state : AttendanceState
  pub started_at : String
  pub ended_at : Option String
  pub via : Option Via

pub record RosterEntry : Type 0 where
  pub student_id : String
  pub full_name : String
  pub state : AttendanceState
  pub last_seen : Option String
  pub present_ms : ℕ
  pub via : Option Via

abbrev first? {ℓ} : {A : Type ℓ} → List A → Option A
first? [] = none
first? (a ∷ _) = some a

-- The session of the API's reply, else the newest open one of the database.
unfoldable pub fetch_active_session :
    Reply (Option ActiveSession)
    → Query (List ActiveSession)
    → Outcome (Option ActiveSession) String
fetch_active_session (replied session) query = ok session
fetch_active_session _ (rows found) = ok (first? (get_or_default found []))
fetch_active_session _ (failed e) = err e

unfoldable pub fetch_students :
    Reply (List StudentRow) → Query (List StudentRow) → Outcome (List StudentRow) String
unfolding api_or_database
fetch_students reply query = api_or_database [] reply query

unfoldable pub fetch_intervals :
    Reply (List IntervalRow) → Query (List IntervalRow) → Outcome (List IntervalRow) String
unfolding api_or_database
fetch_intervals reply query = api_or_database [] reply query

-- An empty `ended_at` is falsy, like a missing one.
abbrev pub end_of : (String → ℕ) → ℕ → IntervalRow → ℕ
end_of parse now iv = elim iv.ended_at [
  | none ↦ now
  | some t ↦ if str_eq t "" then now else parse t
]

abbrev pub is_present : AttendanceState → Bool
is_present present = true
is_present _ = false

-- `Math.max(0, end - start)` of a present interval.
abbrev pub present_time : (String → ℕ) → ℕ → IntervalRow → ℕ
present_time parse now iv =
    if is_present iv.state then end_of parse now iv - parse iv.started_at else 0

abbrev state_of : Option IntervalRow → AttendanceState
state_of none = absent
state_of (some iv) = iv.state

abbrev seen_of : Option IntervalRow → Option String
seen_of none = none
seen_of (some iv) = some iv.started_at

abbrev via_of : Option IntervalRow → Option Via
via_of none = none
via_of (some iv) = iv.via

-- The entry of a student with these intervals.
abbrev pub entry : (String → ℕ) → ℕ → StudentRow → List IntervalRow → RosterEntry
entry parse now s ivs = record {
  student_id = s.reg_no;
  full_name = s.full_name;
  state = state_of (get_last? ivs);
  last_seen = seen_of (get_last? ivs);
  present_ms = sum_by (present_time parse now) ivs;
  via = via_of (get_last? ivs);
}

unfoldable pub derive_roster :
    (String → ℕ) → ℕ → List StudentRow → List IntervalRow → List RosterEntry
derive_roster parse now students intervals =
    let by_student = group_by (λ iv. iv.student_id) intervals in
    map (λ s. entry parse now s (get_or_default (get s.id by_student) [])) students

-- The filter of `subscribePresence`: a deletion carries a row without an id.
abbrev pub presence_row : Option IntervalRow → Option IntervalRow
presence_row none = none
presence_row (some iv) = if str_eq iv.id "" then none else some iv

-- The teacher page: what its references hold, and the roster that it shows.
pub record TeacherPage : Type 0 where
  pub students : List StudentRow
  pub intervals : Dict IntervalRow
  pub roster : List RosterEntry

unfoldable pub rederive : (String → ℕ) → ℕ → TeacherPage → TeacherPage
unfolding derive_roster
rederive parse now p = record p { roster = derive_roster parse now p.students (values p.intervals) }

abbrev changed : (String → ℕ) → ℕ → Option IntervalRow → TeacherPage → TeacherPage
changed parse now none p = p
changed parse now (some iv) p =
    rederive parse now (record p { intervals = set iv.id iv p.intervals })

-- A change that the realtime channel reports.
unfoldable pub on_change : (String → ℕ) → ℕ → Option IntervalRow → TeacherPage → TeacherPage
unfolding rederive
on_change parse now payload p = changed parse now (presence_row payload) p

pub record Counts : Type 0 where
  pub n_present : ℕ
  pub n_unverified : ℕ
  pub n_absent : ℕ

abbrev pub bump : AttendanceState → Counts → Counts
bump present c = record c { n_present = c.n_present + 1 }
bump unverified c = record c { n_unverified = c.n_unverified + 1 }
bump absent c = record c { n_absent = c.n_absent + 1 }

unfoldable pub count_from : Counts → List RosterEntry → Counts
count_from c [] = c
count_from c (r ∷ rs) = count_from (bump r.state c) rs

abbrev pub counts : List RosterEntry → Counts
counts roster = count_from (record { n_present = 0; n_unverified = 0; n_absent = 0 }) roster

pub data Filter : Type 0 where
  all_states : Filter
  only : AttendanceState → Filter

abbrev pub same_state : AttendanceState → AttendanceState → Bool
same_state present present = true
same_state unverified unverified = true
same_state absent absent = true
same_state _ _ = false

-- The rows that the page lists, and the number on the filter's button.
unfoldable pub filtered : Filter → List RosterEntry → List RosterEntry
filtered all_states roster = roster
filtered (only k) roster = filter (λ r. same_state r.state k) roster

abbrev pub count_of : AttendanceState → Counts → ℕ
count_of present c = c.n_present
count_of unverified c = c.n_unverified
count_of absent c = c.n_absent

unfoldable pub filter_count : Filter → List RosterEntry → ℕ
filter_count all_states roster = length roster
filter_count (only k) roster = count_of k (counts roster)

-- The optimistic update of `handleOverride`, which does nothing on a page without a session.
unfoldable pub override_begin : String → AttendanceState → TeacherPage → TeacherPage
override_begin reg_no state p = record p {
  roster = map (λ r. if str_eq r.student_id reg_no then record r { state = state } else r) p.roster;
}

-- Its end: the write needs a known student; if it fails, the roster of the click is put back.
unfoldable pub override_end :
    String → (String → Reply (Unit {0})) → List RosterEntry → TeacherPage → TeacherPage
override_end reg_no write prev p = elim (find? (λ s. str_eq s.reg_no reg_no) p.students) [
  | none ↦ record p { roster = prev }
  | some s ↦ elim (write s.id) [ replied _ ↦ p | _ ↦ record p { roster = prev } ]
]
