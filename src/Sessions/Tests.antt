-- ===== src/Sessions/Tests.antt =====
-- The session lists at one lecture and one exam.
use sensepro.Prelude.{ℕ, String, ◌≡◌, refl, none, some, List, [], ◌∷◌, map}
use sensepro.Prelude.Dict.{get, set}
use sensepro.Prelude.Upsert.{upsert_all}
use sensepro.Http.{rows, ok, refused}
use sensepro.LiveRoster.{Mode, lecture, exam}
use sensepro.Sessions.{
  history_rows, fetch_sessions_live, present_by_session, roster_size_by_section,
  flag_count_by_session, pending_count_by_session, history_row, tally,
}
use sensepro.SessionTables.{
  SessionRow, PresenceRow, StudentSection, FlagRow, Database, SessionHistoryRow,
}
use sensepro.Sessions.Rows.{row_of, history_rows_lem}

abbrev session : String → Mode → SessionRow
session id mode = record {
  id = id;
  class_section = "CS-A";
  subject = some "Logic";
  mode = mode;
  starts_at = "t";
  ends_at = none;
}

abbrev seen : List PresenceRow
seen =
    record { session_id = "l"; student_id = "s1" }
    ∷ record { session_id = "l"; student_id = "s2" }
    ∷ record { session_id = "l"; student_id = "s1" }
    ∷ []

abbrev class_a : List StudentSection
class_a =
    record { id = "s1"; class_section = "CS-A" }
    ∷ record { id = "s2"; class_section = "CS-A" }
    ∷ record { id = "s3"; class_section = "CS-A" }
    ∷ []

abbrev raised : List FlagRow
raised =
    record { session_id = "e"; review_status = "pending" }
    ∷ record { session_id = "e"; review_status = "confirmed" }
    ∷ []

abbrev tables : Database
tables = record {
  presence = λ _. rows (some seen);
  students = λ _. rows (some class_a);
  flags = λ _. rows (some raised);
  zones = λ _. rows none;
}

abbrev both : List SessionRow
both = session "l" lecture ∷ session "e" exam ∷ []

history_rows_lem_example : history_rows tables both ≡ ok (map (row_of seen class_a raised []) both)
history_rows_lem_example = history_rows_lem tables both seen class_a raised [] refl refl refl refl

abbrev counted : SessionRow → ℕ → ℕ → ℕ → ℕ → SessionHistoryRow
counted s n_present n_total n_flags n_pending = record {
  id = s.id;
  class_section = s.class_section;
  subject = s.subject;
  mode = s.mode;
  starts_at = s.starts_at;
  ends_at = s.ends_at;
  present_count = n_present;
  total_count = n_total;
  flag_count = n_flags;
  pending_flag_count = n_pending;
  vnei = none;
  coverage = none;
  reportable_windows = 0;
  vnei_weight = none;
  coverage_weight = none;
}

fetch_sessions_live_test :
    fetch_sessions_live (refused 500 none) (rows (some both)) tables
    ≡ ok (counted (session "l" lecture) 2 3 0 0 ∷ counted (session "e" exam) 0 0 2 1 ∷ [])
unfolding fetch_sessions_live history_rows history_row present_by_session roster_size_by_section
    flag_count_by_session pending_count_by_session tally get set upsert_all
fetch_sessions_live_test = refl
