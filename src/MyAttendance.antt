-- ===== src/MyAttendance.antt =====
-- apps/web/src/lib/data/my-attendance.ts: what a student sees of the own attendance and consent. The
-- auth user and the queries, each a reply of the database client, are arguments.
mod Tests
use sensepro.Prelude.{
  ◌≡◌, refl, ap, String, Bool, false, Option, none, some, List, [], ◌∷◌, map, if◌then◌else◌,
  get_or_default, arith, str_eq, eq_iff, is_some, not, Bool-cases, inl, inr,
}
use sensepro.Prelude.Dict.{Dict, get, has, set, get-set, has-eq-is_some-get}
use sensepro.Http.{Query, rows, failed, Outcome, ok, err}
use sensepro.LiveRoster.{Mode, AttendanceState, absent}
use sensepro.SessionTables.{SessionRow}

pub record MyAttendanceRow : Type 0 where
  pub session_id : String
  pub class_name : String
  pub date : String
  pub state : AttendanceState
  pub mode : Mode
  pub is_live : Bool

pub record MyStudentProfile : Type 0 where
  pub id : String
  pub full_name : String
  pub reg_no : String
  pub class_section : String

-- Which request failed, with its message.
pub data Failure : Type 0 where
  profile_failed sessions_failed attendance_failed consent_failed : String → Failure

pub data MyAttendanceResult : Type 0 where
  no_student : MyAttendanceResult
  empty : MyStudentProfile → MyAttendanceResult
  done : MyStudentProfile → List MyAttendanceRow → MyAttendanceResult
  error : Failure → MyAttendanceResult

pub record IntervalState : Type 0 where
  pub session_id : String
  pub state : AttendanceState

-- The loop over the intervals, which are newest first: the first of a session is kept.
unfoldable pub latest_by_session : List IntervalState → Dict AttendanceState → Dict AttendanceState
latest_by_session [] m = m
latest_by_session (iv ∷ ivs) m =
    latest_by_session ivs (if has iv.session_id m then m else set iv.session_id iv.state m)

unfoldable pub my_record : Dict AttendanceState → SessionRow → MyAttendanceRow
my_record latest s = record {
  session_id = s.id;
  class_name = get_or_default s.subject s.class_section;
  date = s.starts_at;
  state = get_or_default (get s.id latest) absent;
  mode = s.mode;
  is_live = not (is_some s.ends_at);
}

abbrev pub with_intervals :
    MyStudentProfile → List SessionRow → Query (List IntervalState) → MyAttendanceResult
with_intervals student sessions (failed e) = error (attendance_failed e)
with_intervals student sessions (rows found) =
    done student (map (my_record (latest_by_session (get_or_default found []) [])) sessions)

abbrev with_sessions :
    MyStudentProfile
    → Query (List SessionRow)
    → (List String → Query (List IntervalState))
    → MyAttendanceResult
with_sessions student (failed e) intervals = error (sessions_failed e)
with_sessions student (rows none) intervals = empty student
with_sessions student (rows (some [])) intervals = empty student
with_sessions student (rows (some (s ∷ ss))) intervals =
    with_intervals student (s ∷ ss) (intervals (map (λ t. t.id) (s ∷ ss)))

-- `fetchMyAttendance`, for the reply to the query of the student's profile; `rows none` also stands
-- for a user who is not signed in.
unfoldable pub fetch_my_attendance :
    Query MyStudentProfile
    → (String → Query (List SessionRow))
    → (List String → Query (List IntervalState))
    → MyAttendanceResult
unfolding my_record latest_by_session
fetch_my_attendance (failed e) sessions intervals = error (profile_failed e)
fetch_my_attendance (rows none) sessions intervals = no_student
fetch_my_attendance (rows (some student)) sessions intervals =
    with_sessions student (sessions student.class_section) intervals

pub record ConsentRow : Type 0 where
  pub consent_version : String
  pub signed_at : String
  pub withdrawn_at : Option String

pub record MyConsent : Type 0 where
  pub version : String
  pub signed_at : String
  pub is_withdrawn : Bool

-- An empty text is falsy.
abbrev is_set : Option String → Bool
is_set none = false
is_set (some t) = not (str_eq t "")

abbrev consent_of : Query ConsentRow → Outcome (Option MyConsent) Failure
consent_of (failed e) = err (consent_failed e)
consent_of (rows none) = ok none
consent_of (rows (some d)) = ok (
    some (record {
      version = d.consent_version;
      signed_at = d.signed_at;
      is_withdrawn = is_set d.withdrawn_at;
    }))

-- `fetchMyConsent`.
unfoldable pub fetch_my_consent :
    Query MyStudentProfile → (String → Query ConsentRow) → Outcome (Option MyConsent) Failure
fetch_my_consent (failed e) consent = err (profile_failed e)
fetch_my_consent (rows none) consent = ok none
fetch_my_consent (rows (some student)) consent = consent_of (consent student.id)

-- The newest of a session's intervals, if it has one.
abbrev pub newest : String → List IntervalState → Option AttendanceState
newest id [] = none
newest id (iv ∷ ivs) = if str_eq iv.session_id id then some iv.state else newest id ivs

abbrev or_newest : Option AttendanceState → String → List IntervalState → Option AttendanceState
or_newest none id ivs = newest id ivs
or_newest (some s) id ivs = some s

get-latest_by_session :
    (id : String) (ivs : List IntervalState) (m : Dict AttendanceState)
    → get id (latest_by_session ivs m) ≡ or_newest (get id m) id ivs
unfolding latest_by_session
get-latest_by_session id [] m = ground arith
get-latest_by_session id (iv ∷ ivs) m = elim (Bool-cases (has iv.session_id m)) [
  | inl known ↦ rw known (
      ground (
        arith,
        get-latest_by_session id ivs m,
        has-eq-is_some-get iv.session_id m,
        eq_iff iv.session_id id,
      ))
  | inr new ↦ rw new (
      ground (
        arith,
        get-latest_by_session id ivs (set iv.session_id iv.state m),
        has-eq-is_some-get iv.session_id m,
        get-set iv.session_id id iv.state m,
        eq_iff iv.session_id id,
      ))
]

-- The record of a session with the state of its newest interval, and absent without one.
abbrev pub record_of : List IntervalState → SessionRow → MyAttendanceRow
record_of ivs s = record {
  session_id = s.id;
  class_name = get_or_default s.subject s.class_section;
  date = s.starts_at;
  state = get_or_default (newest s.id ivs) absent;
  mode = s.mode;
  is_live = not (is_some s.ends_at);
}

records :
    (ivs : List IntervalState) (sessions : List SessionRow)
    → map (my_record (latest_by_session ivs [])) sessions ≡ map (record_of ivs) sessions
unfolding my_record get
records ivs [] = refl
records ivs (s ∷ ss) = rw (get-latest_by_session s.id ivs [], records ivs ss) refl

-- For a linked student whose section has sessions, and once the intervals are there, the history has
-- one record for each session, in order: in the state of the session's newest interval, and absent
-- where there is none, so that no session disappears.
pub fetch_my_attendance_lem :
    (student : MyStudentProfile) (s : SessionRow) (ss : List SessionRow)
    (sessions : String → Query (List SessionRow))
    (intervals : List String → Query (List IntervalState)) (found : Option (List IntervalState))
    → sessions student.class_section ≡ rows (some (s ∷ ss))
    → intervals (map (λ t. t.id) (s ∷ ss)) ≡ rows found
    → fetch_my_attendance (rows (some student)) sessions intervals
      ≡ done student (map (record_of (get_or_default found [])) (s ∷ ss))
unfolding fetch_my_attendance
fetch_my_attendance_lem student s ss sessions intervals found h k =
    rw (h, k) (ap (done student) (records (get_or_default found []) (s ∷ ss)))
