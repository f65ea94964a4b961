-- ===== src/Management/Tests.antt =====
-- A management page that loads three sessions and swaps its comparison.
use sensepro.Prelude.{String, List, [], ◌∷◌, ◌≡◌, refl, none, true, false}
use sensepro.Prelude.Upsert.{contains}
use sensepro.Http.{ok}
use sensepro.Management.{
  Page, Comparison, loading, right, first_other, choose_session, refresh_begin, refresh_end, choose,
  IsComparison,
}
use sensepro.Management.Runs.{
  Reach, start, later, begins, ends, chooses, ids_of, Reach-IsComparison,
}

abbrev ids : List String
ids = "s1" ∷ "s2" ∷ "s3" ∷ []

abbrev own : String → String
own id = id

abbrev chosen : Comparison
chosen = record { a = "s1"; b = "s2" }

swapped : choose_session ids right "s1" chosen ≡ record { a = "s2"; b = "s1" }
unfolding choose_session first_other
swapped = refl

abbrev opening : Page (Unit {0}) (Unit {0}) String
opening = record {
  load = loading;
  session = none;
  rows = [];
  sessions = [];
  updated_at = 0;
  comparison = record { a = ""; b = "" };
  in_flight = false;
  mounted = true;
}

abbrev loaded : Page (Unit {0}) (Unit {0}) String
loaded = refresh_end own 7 (ok (none, [], ids)) (record opening { in_flight = true })

abbrev swapping : Page (Unit {0}) (Unit {0}) String
swapping = choose own right "s1" loaded

swapping-Reach : Reach own swapping
unfolding refresh_begin refresh_end choose
swapping-Reach =
    later (later (later (start opening) (begins refl)) (ends 7 (ok (none, [], ids)) refl refl))
      (chooses right "s1" refl)

Reach-IsComparison_example :
    (contains (ids_of own swapping) "" ≡ false)
    × IsComparison (ids_of own swapping) swapping.comparison
Reach-IsComparison_example = Reach-IsComparison own swapping-Reach
