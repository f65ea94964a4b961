-- ===== src/Proctor/Tests.antt =====
-- A queue of two events.
use sensepro.Prelude.{
  ℕ, String, ◌≡◌, refl, false, none, some, List, [], ◌∷◌, str_eq, if◌then◌else◌, arith,
}
use sensepro.Prelude.Dict.{get, set}
use sensepro.Prelude.Sort.{insert, sort}
use sensepro.Prelude.Upsert.{upsert_all}
use sensepro.Http.{ok}
use sensepro.Proctor.{
  ProctorFlagRow, ReviewStatus, phone, pending, upheld, Panel, ready, merge_flags, by_id,
}
use sensepro.Proctor.{PanelEvent, changed, review_started, review_ended, opened, panel_run}
use sensepro.Proctor.Queue.{Ordered, panel_run-Ordered}

abbrev parse : String → ℕ
parse t = if str_eq t "early" then 1 else 2

abbrev flag : String → String → ReviewStatus → ProctorFlagRow
flag id at status = record {
  id = id;
  session_id = "e";
  student_id = none;
  flag_type = phone;
  suppressed = false;
  flagged_at = at;
  review_status = status;
  reviewed_by = none;
  reviewed_at = none;
}

abbrev current : List ProctorFlagRow
current = flag "a" "early" pending ∷ flag "b" "late" pending ∷ []

merge_flags_test :
    merge_flags parse current (flag "a" "early" upheld ∷ [])
    ≡ flag "b" "late" pending ∷ flag "a" "early" upheld ∷ []
unfolding merge_flags by_id upsert_all set get sort insert
merge_flags_test = refl

abbrev panel : Panel
panel = record {
  session_id = some "e";
  flags = current;
  load = ready;
  live = false;
  busy = some "a";
}

abbrev reviewed : List PanelEvent
reviewed =
    changed (flag "c" "late" pending)
    ∷ review_started (flag "a" "early" pending)
    ∷ review_ended (flag "a" "early" pending) upheld (ok tt)
    ∷ opened (some "f")
    ∷ []

abbrev sorted_panel : Panel
sorted_panel = record panel { flags = flag "b" "late" pending ∷ flag "a" "early" pending ∷ [] }

panel_run-Ordered_example : Ordered parse (panel_run parse reviewed sorted_panel)
panel_run-Ordered_example =
    panel_run-Ordered parse reviewed sorted_panel ((omega arith, (tt, tt)), (refl, (refl, tt)))
