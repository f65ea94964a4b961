-- ===== src/LiveRoster/Tests.antt =====
-- The live roster at a class of two students.
use sensepro.Prelude.{
  ℕ, String, ◌≡◌, refl, none, some, List, [], ◌∷◌, str_eq, if◌then◌else◌, Option,
}
use sensepro.Prelude.Dict.{get, set, group_by, group_from}
use sensepro.Http.{Reply, refused}
use sensepro.LiveRoster.{
  AttendanceState, present, absent, StudentRow, IntervalRow, camera, RosterEntry, derive_roster,
  TeacherPage,
}
use sensepro.LiveRoster.Derive.{AreRows, derive_roster-AreRows}

-- Timestamps of one character, in order.
abbrev parse : String → ℕ
parse t = if str_eq t "a" then 1000 else if str_eq t "b" then 4000 else 6000

abbrev ann : StudentRow
ann = record { id = "s1"; reg_no = "R1"; full_name = "Ann" }

abbrev bob : StudentRow
bob = record { id = "s2"; reg_no = "R2"; full_name = "Bob" }

abbrev interval : String → AttendanceState → String → Option String → IntervalRow
interval id state from to = record {
  id = id;
  session_id = "x";
  student_id = "s1";
  state = state;
  started_at = from;
  ended_at = to;
  via = some camera;
}

abbrev day : List IntervalRow
day =
    interval "i1" present "a" (some "b")
    ∷ interval "i2" absent "b" (some "c")
    ∷ interval "i3" present "c" none
    ∷ []

abbrev ann_row : RosterEntry
ann_row = record {
  student_id = "R1";
  full_name = "Ann";
  state = present;
  last_seen = some "c";
  present_ms = 5000;
  via = some camera;
}

abbrev bob_row : RosterEntry
bob_row = record {
  student_id = "R2";
  full_name = "Bob";
  state = absent;
  last_seen = none;
  present_ms = 0;
  via = none;
}

derive_roster-AreRows_example :
    AreRows parse 8000 day (ann ∷ bob ∷ []) (derive_roster parse 8000 (ann ∷ bob ∷ []) day)
derive_roster-AreRows_example = derive_roster-AreRows parse 8000 (ann ∷ bob ∷ []) day

derive_roster_test : derive_roster parse 8000 (ann ∷ bob ∷ []) day ≡ ann_row ∷ bob_row ∷ []
unfolding derive_roster group_by group_from get set
derive_roster_test = refl

abbrev page : TeacherPage
page = record {
  students = ann ∷ bob ∷ [];
  intervals = ("i1", interval "i1" present "a" none) ∷ [];
  roster = ann_row ∷ bob_row ∷ [];
}

abbrev refuse : String → Reply (Unit {0})
refuse _ = refused 403 none
