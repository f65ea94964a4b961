-- ===== src/Engagement.antt =====
-- apps/web/src/lib/data/live.ts, `summariseAggregates` and `summariesBySession`, and
-- apps/web/src/lib/data/engagement.ts, `latestWindow`.
-- The doubles `vnei` and `coverage` are natural numbers in one fixed unit (a millionth, say), and a
-- weighted mean is the exact fraction that the source then divides out.
pub mod Weights
pub mod Bounds
pub mod Windows
mod Tests
use sensepro.Prelude.{
  ℕ, String, ◌+◌, ◌*◌, Bool, Option, none, some, List, [], ◌∷◌, ◌++◌, ltb, if◌then◌else◌, filter,
  length, sum_by, str_eq, get_last?,
}
use sensepro.Prelude.Int.{ℤ, max_zero}
use sensepro.Prelude.Dict.{Dict, set, group_by}

pub record AggregateMetricRow : Type 0 where
  pub session_id : String
  pub window_start : String
  pub zone : String
  pub n_tracked : ℤ
  pub enrolled_in_zone : ℤ
  pub vnei : ℕ
  pub coverage : ℕ

-- `total / weight`.
pub record Mean : Type 0 where
  pub total : ℕ
  pub weight : ℕ

pub record AggregateSummary : Type 0 where
  pub vnei : Option Mean
  pub coverage : Option Mean
  pub reportable_windows : ℕ
  pub vnei_weight : ℕ
  pub coverage_weight : ℕ

abbrev pub is_class : AggregateMetricRow → Bool
is_class row = str_eq row.zone "class"

-- The class rows of a window if it has any, and its zone rows otherwise.
abbrev pub window_report : List AggregateMetricRow → List AggregateMetricRow
window_report window_rows =
    let class_rows = filter is_class window_rows in
    if ltb 0 (length class_rows) then class_rows else window_rows

-- The loop over `byWindow.values()`.
unfoldable pub report_rows : Dict (List AggregateMetricRow) → List AggregateMetricRow
report_rows [] = []
report_rows ((_, window_rows) ∷ windows) = window_report window_rows ++ report_rows windows

abbrev pub by_window : List AggregateMetricRow → Dict (List AggregateMetricRow)
by_window rows = group_by (λ r. r.window_start) rows

abbrev pub visible : AggregateMetricRow → ℕ
visible row = max_zero row.n_tracked

abbrev pub enrolled : AggregateMetricRow → ℕ
enrolled row = max_zero row.enrolled_in_zone

-- `weight > 0 ? sum / weight : null`, for the rows' values and weights.
unfoldable pub weighted_mean :
    (AggregateMetricRow → ℕ) → (AggregateMetricRow → ℕ) → List AggregateMetricRow → Option Mean
weighted_mean value weight rows =
    if ltb 0 (sum_by weight rows)
    then some
        (record { total = sum_by (λ r. value r * weight r) rows; weight = sum_by weight rows })
    else none

unfoldable pub summarise_aggregates : List AggregateMetricRow → AggregateSummary
summarise_aggregates rows =
    let reported = report_rows (by_window rows) in
    record {
      vnei = weighted_mean (λ r. r.vnei) visible reported;
      coverage = weighted_mean (λ r. r.coverage) enrolled reported;
      reportable_windows = length (by_window rows);
      vnei_weight = sum_by visible reported;
      coverage_weight = sum_by enrolled reported;
    }

-- `new Map([...grouped].map(([id, rows]) => [id, summariseAggregates(rows)]))`.
unfoldable pub summarise_groups : Dict (List AggregateMetricRow) → Dict AggregateSummary
summarise_groups [] = []
summarise_groups ((id, rows) ∷ grouped) = (id, summarise_aggregates rows) ∷ summarise_groups grouped

unfoldable pub summaries_by_session : List AggregateMetricRow → Dict AggregateSummary
unfolding summarise_groups
summaries_by_session rows = summarise_groups (group_by (λ r. r.session_id) rows)

pub record ZoneAggregateRow : Type 0 where
  pub id : String
  pub session_id : String
  pub window_start : String
  pub window_s : ℕ
  pub zone : String
  pub n_tracked : ℕ
  pub enrolled_in_zone : ℕ
  pub coverage : ℕ
  pub vnei : ℕ
  pub signals : Dict ℕ

-- The loop that keys the rows of one window by zone; a later row of a zone replaces an earlier one.
unfoldable pub zones_from :
    String → Dict ZoneAggregateRow → List ZoneAggregateRow → Dict ZoneAggregateRow
zones_from start m [] = m
zones_from start m (row ∷ rows) =
    zones_from start (if str_eq row.window_start start then set row.zone row m else m) rows

-- An empty text is falsy, so a row with no window start yields no zones.
abbrev pub zones_of : Option String → List ZoneAggregateRow → Dict ZoneAggregateRow
zones_of none rows = []
zones_of (some start) rows = if str_eq start "" then [] else zones_from start [] rows

abbrev pub start_of : Option ZoneAggregateRow → Option String
start_of none = none
start_of (some row) = some row.window_start

unfoldable pub latest_window : List ZoneAggregateRow → Option String × Dict ZoneAggregateRow
unfolding zones_from
latest_window rows = let start = start_of (get_last? rows) in (start, zones_of start rows)
