-- ===== src/Sessions.antt =====
-- The session lists of apps/web/src/lib/data/live.ts: `fetchManagementSessions` and
-- `fetchSessionsLive`, with the loops that count the rows of the tables.
pub mod Counts
pub mod Rows
mod Tests
use sensepro.Prelude.{
  ℕ, ◌+◌, String, Bool, true, ◌&&◌, Option, none, some, List, [], ◌∷◌, map, filter, length,
  if◌then◌else◌, str_eq, get_or_default, is_some,
}
use sensepro.Prelude.Dict.{Dict, get}
use sensepro.Prelude.Upsert.{add, upsert_all}
use sensepro.Http.{Reply, replied, Query, Outcome, ok, ◌>>=◌, checked}
use sensepro.Engagement.{AggregateSummary, Mean, summaries_by_session}
use sensepro.LiveRoster.{Mode, lecture, exam, workshop}
use sensepro.SessionTables.{
  Database, FlagRow, ManagementSessionRow, PresenceRow, SessionHistoryRow, SessionRow,
  StudentSection, exam_flags, lecture_presence, lecture_students, same_mode, workshop_zones,
}

-- `presentBySession`: the set of students of each session.
unfoldable pub present_by_session : List PresenceRow → Dict (List String)
present_by_session table =
    upsert_all (λ r. r.session_id) (λ r set. add r.student_id (get_or_default set [])) table []

-- `m.set(key, (m.get(key) ?? 0) + 1)` over the rows.
unfoldable pub tally {ℓ} : {A : Type ℓ} → (A → String) → List A → Dict ℕ
tally key table = upsert_all key (λ _ n. get_or_default n 0 + 1) table []

unfoldable pub roster_size_by_section : List StudentSection → Dict ℕ
unfolding tally
roster_size_by_section table = tally (λ s. s.class_section) table

unfoldable pub flag_count_by_session : List FlagRow → Dict ℕ
unfolding tally
flag_count_by_session table = tally (λ f. f.session_id) table

abbrev pub is_pending : FlagRow → Bool
is_pending f = str_eq f.review_status "pending"

unfoldable pub pending_count_by_session : List FlagRow → Dict ℕ
unfolding tally
pending_count_by_session table = tally (λ f. f.session_id) (filter is_pending table)

abbrev pub vnei_of : Option AggregateSummary → Option Mean
vnei_of none = none
vnei_of (some a) = a.vnei

abbrev pub coverage_of : Option AggregateSummary → Option Mean
coverage_of none = none
coverage_of (some a) = a.coverage

abbrev pub windows_of : Option AggregateSummary → ℕ
windows_of none = 0
windows_of (some a) = a.reportable_windows

abbrev set_size : Option (List String) → ℕ
set_size set = length (get_or_default set [])

unfoldable pub management_row :
    Dict (List String) → Dict ℕ → Dict AggregateSummary → SessionRow → ManagementSessionRow
management_row present sizes summaries s = record {
  id = s.id;
  class_name = get_or_default s.subject s.class_section;
  class_section = s.class_section;
  mode = s.mode;
  started_at = s.starts_at;
  ended_at = s.ends_at;
  present_count = set_size (get s.id present);
  total_count = get_or_default (get s.class_section sizes) 0;
  vnei = vnei_of (get s.id summaries);
  coverage = coverage_of (get s.id summaries);
  reportable_windows = windows_of (get s.id summaries);
}

unfoldable pub management_rows :
    Database → List SessionRow → Outcome (List ManagementSessionRow) String
unfolding management_row
management_rows db [] = ok []
management_rows db (s ∷ sessions) =
    let all_sessions = s ∷ sessions in
    lecture_presence db all_sessions >>= λ presence.
    lecture_students db all_sessions >>= λ students. workshop_zones db all_sessions >>= λ zones.
    ok (
      map
        (management_row (present_by_session presence) (roster_size_by_section students)
          (summaries_by_session zones))
        all_sessions)

abbrev wanted : Option Mode → Mode → Bool
wanted none m = true
wanted (some mode) m = same_mode m mode

abbrev pub from_history : SessionHistoryRow → ManagementSessionRow
from_history r = record {
  id = r.id;
  class_name = get_or_default r.subject r.class_section;
  class_section = r.class_section;
  mode = r.mode;
  started_at = r.starts_at;
  ended_at = r.ends_at;
  present_count = r.present_count;
  total_count = r.total_count;
  vnei = r.vnei;
  coverage = r.coverage;
  reportable_windows = r.reportable_windows;
}

-- The ended sessions: the API's answer if it is `ok`, else from the tables; the query that selects
-- the sessions, with its limit, order and mode, is an argument.
unfoldable pub fetch_management_sessions :
    Option Mode
    → Reply (List SessionHistoryRow)
    → Query (List SessionRow)
    → Database
    → Outcome (List ManagementSessionRow) String
unfolding management_rows
fetch_management_sessions mode (replied history) query db =
    ok (map from_history (filter (λ r. is_some r.ends_at && wanted mode r.mode) history))
fetch_management_sessions mode _ query db = checked query >>= management_rows db

abbrev pub gated {ℓ} : {A : Type ℓ} → Mode → Mode → A → A → A
gated m mode value other = if same_mode mode m then value else other

unfoldable pub history_row :
    Dict (List String)
    → Dict ℕ
    → Dict ℕ
    → Dict ℕ
    → Dict AggregateSummary
    → SessionRow
    → SessionHistoryRow
history_row present sizes flags pending summaries s = record {
  id = s.id;
  class_section = s.class_section;
  subject = s.subject;
  mode = s.mode;
  starts_at = s.starts_at;
  ends_at = s.ends_at;
  present_count = gated lecture s.mode (set_size (get s.id present)) 0;
  total_count = gated lecture s.mode (get_or_default (get s.class_section sizes) 0) 0;
  flag_count = gated exam s.mode (get_or_default (get s.id flags) 0) 0;
  pending_flag_count = gated exam s.mode (get_or_default (get s.id pending) 0) 0;
  vnei = gated workshop s.mode (vnei_of (get s.id summaries)) none;
  coverage = gated workshop s.mode (coverage_of (get s.id summaries)) none;
  reportable_windows = gated workshop s.mode (windows_of (get s.id summaries)) 0;
  vnei_weight = none;
  coverage_weight = none;
}

unfoldable pub history_rows : Database → List SessionRow → Outcome (List SessionHistoryRow) String
unfolding history_row
history_rows db [] = ok []
history_rows db (s ∷ sessions) =
    let all_sessions = s ∷ sessions in
    lecture_presence db all_sessions >>= λ presence.
    lecture_students db all_sessions >>= λ students. exam_flags db all_sessions >>= λ flags.
    workshop_zones db all_sessions >>= λ zones. ok (
      map
        (history_row (present_by_session presence) (roster_size_by_section students)
          (flag_count_by_session flags) (pending_count_by_session flags)
          (summaries_by_session zones))
        all_sessions)

unfoldable pub fetch_sessions_live :
    Reply (List SessionHistoryRow)
    → Query (List SessionRow)
    → Database
    → Outcome (List SessionHistoryRow) String
unfolding history_rows
fetch_sessions_live (replied history) query db = ok history
fetch_sessions_live _ query db = checked query >>= history_rows db
