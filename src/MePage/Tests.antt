-- ===== src/MePage/Tests.antt =====
-- A student with three sessions, who asks for deletion.
use sensepro.Prelude.{
  ◌≡◌, refl, String, true, false, none, some, List, [], ◌∷◌, length, sum_by, All,
}
use sensepro.LiveRoster.{Mode, lecture, exam, AttendanceState, present, absent}
use sensepro.MyAttendance.{MyAttendanceRow}
use sensepro.Admin.Requests.{MyDeletionRequest}
use sensepro.MePage.{
  loading, panel_of, delete_begin, delete_end, count_of, by_type, live_unverified,
}
use sensepro.MePage.Types.{IsCount, by_type-shares}
use sensepro.MePage.Deletion.{
  System, Reach, start, later, asks, ticks, submits, accepts, IsRequested, Reach-IsRequested,
}

abbrev row : String → Mode → AttendanceState → MyAttendanceRow
row id mode state = record {
  session_id = id;
  class_name = "MCA-4B";
  date = "t";
  state = state;
  mode = mode;
  is_live = true;
}

abbrev records : List MyAttendanceRow
records = row "a" lecture present ∷ row "b" exam absent ∷ row "c" lecture absent ∷ []

types :
    by_type records
    ≡ record { mode = lecture; total = 2; present = 1 }
      ∷ record { mode = exam; total = 1; present = 0 }
      ∷ []
unfolding by_type count_of
types = refl

unverified : live_unverified records ≡ some (row "b" exam absent)
unfolding live_unverified
unverified = refl

by_type-shares_example :
    (sum_by (λ t. t.total) (by_type records) ≡ length records) × All IsCount (by_type records)
by_type-shares_example = by_type-shares records

abbrev asked : MyDeletionRequest
asked = record { id = "d"; status = "pending"; requested_at = "t"; resolved_at = none }

abbrev submitted_page : System
submitted_page = record {
  page = record {
    result = none;
    confirming = true;
    confirmed = true;
    deleted = true;
    deleting = false;
    checking = none;
    consent = loading;
  };
  on_way = 0;
  accepted = true;
}

submitted-Reach : Reach submitted_page
unfolding panel_of delete_begin delete_end
submitted-Reach =
    later (later (later (later start (asks refl)) (ticks true refl)) (submits refl refl))
      (accepts 0 asked refl)

Reach-IsRequested_example : IsRequested submitted_page
Reach-IsRequested_example = Reach-IsRequested submitted-Reach
