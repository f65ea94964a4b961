-- ===== src/Engagement/Tests.antt =====
-- The engagement summaries at concrete rows: one window with a class row, and one with zones only.
use sensepro.Prelude.{◌≡◌, refl, ◌≤◌, ◌<◌, ◌*◌, ℕ, String, List, [], ◌∷◌, arith, All}
use sensepro.Prelude.Int.{ℤ, pos}
use sensepro.Prelude.Dict.{get, set, group_by, group_from}
use sensepro.Engagement.{
  AggregateMetricRow, Mean, summarise_aggregates, report_rows, by_window, ZoneAggregateRow,
  weighted_mean,
}
use sensepro.Engagement.Weights.{Counted, report_rows-by_window-Counted}
use sensepro.Engagement.Bounds.{summarise_aggregates_bounds}

abbrev metric : String → String → ℤ → ℕ → AggregateMetricRow
metric window zone n vnei = record {
  session_id = "s1";
  window_start = window;
  zone = zone;
  n_tracked = n;
  enrolled_in_zone = pos 10;
  vnei = vnei;
  coverage = 400;
}

abbrev zone_rows : List AggregateMetricRow
zone_rows =
    metric "t1" "front" (pos 3) 600
    ∷ metric "t1" "back" (pos 1) 200
    ∷ metric "t2" "front" (pos 2) 300
    ∷ []

abbrev all_rows : List AggregateMetricRow
all_rows = metric "t1" "class" (pos 4) 500 ∷ zone_rows

abbrev mean_of_all : Mean
mean_of_all = record { total = 2600; weight = 6 }

report_rows-by_window-Counted_example : All (Counted all_rows) (report_rows (by_window all_rows))
report_rows-by_window-Counted_example = report_rows-by_window-Counted all_rows

summarise_aggregates_bounds_example :
    (0 < mean_of_all.weight)
    × (mean_of_all.weight ≡ (summarise_aggregates all_rows).vnei_weight)
    × (200 * mean_of_all.weight ≤ mean_of_all.total)
    × (mean_of_all.total ≤ 600 * mean_of_all.weight)
unfolding summarise_aggregates weighted_mean report_rows group_by group_from get set
summarise_aggregates_bounds_example =
    summarise_aggregates_bounds 200 600 all_rows mean_of_all (ground arith) refl

abbrev zone_row : String → String → String → ZoneAggregateRow
zone_row id window zone = record {
  id = id;
  session_id = "s1";
  window_start = window;
  window_s = 30;
  zone = zone;
  n_tracked = 5;
  enrolled_in_zone = 10;
  coverage = 500;
  vnei = 600;
  signals = [];
}

abbrev zone_list : List ZoneAggregateRow
zone_list = zone_row "a" "t1" "front" ∷ zone_row "b" "t2" "front" ∷ zone_row "c" "t2" "back" ∷ []
