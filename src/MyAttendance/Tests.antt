-- ===== src/MyAttendance/Tests.antt =====
-- A student with two sessions, one of them attended.
use sensepro.Prelude.{String, ◌≡◌, refl, none, some, List, [], ◌∷◌, map}
use sensepro.Http.{rows}
use sensepro.LiveRoster.{lecture, exam, present, absent, Mode}
use sensepro.SessionTables.{SessionRow}
use sensepro.MyAttendance.{
  MyStudentProfile, IntervalState, done, record_of, fetch_my_attendance, fetch_my_attendance_lem,
}

abbrev ann : MyStudentProfile
ann = record { id = "s1"; full_name = "Ann"; reg_no = "R1"; class_section = "CS-A" }

abbrev session : String → Mode → SessionRow
session id mode = record {
  id = id;
  class_section = "CS-A";
  subject = none;
  mode = mode;
  starts_at = "t";
  ends_at = none;
}

abbrev newest_first : List IntervalState
newest_first =
    record { session_id = "l"; state = present } ∷ record { session_id = "l"; state = absent } ∷ []

fetch_my_attendance_lem_example :
    fetch_my_attendance
      (rows (some ann))
      (λ _. rows (some (session "l" lecture ∷ session "e" exam ∷ [])))
      (λ _. rows (some newest_first))
    ≡ done ann (map (record_of newest_first) (session "l" lecture ∷ session "e" exam ∷ []))
fetch_my_attendance_lem_example =
    fetch_my_attendance_lem ann (session "l" lecture) (session "e" exam ∷ [])
      (λ _. rows (some (session "l" lecture ∷ session "e" exam ∷ [])))
      (λ _. rows (some newest_first)) (some newest_first) refl refl

-- The newest interval says present, and the exam without one is absent.
record_of_test :
    ((record_of newest_first (session "l" lecture)).state ≡ present)
    × ((record_of newest_first (session "e" exam)).state ≡ absent)
record_of_test = (refl, refl)
