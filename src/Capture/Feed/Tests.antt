-- ===== src/Capture/Feed/Tests.antt =====
-- A feed that fails, is answered with a new token and fails again.
use sensepro.Prelude.{refl, true, false, none, some}
use sensepro.Capture.Feed.{not_opened, refresh_begin, refresh_end}
use sensepro.Capture.Feed.Refreshes.{
  System, Reach, start, later, asks, refuses, answers, IsLimited, Reach-IsLimited,
}

abbrev failed_twice : System
failed_twice = record {
  feed = record {
    token = some "t";
    attempted = true;
    in_flight = false;
    problem = some not_opened;
  };
  asked = 1;
  on_way = 0;
  shown = 0;
}

failed_twice-Reach : Reach failed_twice
unfolding refresh_begin refresh_end
failed_twice-Reach =
    later (later (later start (asks refl)) (answers 0 none (some "t") refl)) (refuses refl)

Reach-IsLimited_example : IsLimited failed_twice
Reach-IsLimited_example = Reach-IsLimited failed_twice-Reach
