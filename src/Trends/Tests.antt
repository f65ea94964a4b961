-- ===== src/Trends/Tests.antt =====
-- The trend of two sessions of one day and one of another.
use Prim.Native.String.{◌∷◌ as ◌∷∷◌}
use sensepro.Auth.Token.{append}
use sensepro.Trends.Keys.{local_date_key, show, day_label}
use sensepro.Trends.Keys.RoundTrip.{day_label-local_date_key}
use sensepro.Prelude.{
  ◌+◌, ℕ, ◌*◌, ◌/◌, ◌≡◌, refl, String, true, false, none, some, List, [], ◌∷◌, str_eq, arith, ◌||◌,
  not,
}
use sensepro.Prelude.Dict.{get, set}
use sensepro.Prelude.Sort.{insert, sort}
use sensepro.Prelude.Upsert.{upsert_all}
use sensepro.LiveRoster.{workshop}
use sensepro.SessionTables.{SessionHistoryRow}
use sensepro.Sessions.Counts.{with_key}
use sensepro.Trends.{Calendar, TrendPoint, by_day, series, history_share, trend_from_history}
use sensepro.Trends.Days.{point_at, point_of, day_total, series-by_day}

-- A calendar of the days "a" and "b".
abbrev calendar : Calendar
calendar = record {
  times = λ m w. m.total * w / m.weight;
  day_of = λ t. t;
  label_of = λ t. t;
  recent = λ t. true;
  not_after = λ s t. not (str_eq s "b") || str_eq t "b";
}

abbrev workshop_on : String → ℕ → ℕ → SessionHistoryRow
workshop_on day vnei weight = record {
  id = "w";
  class_section = "CS-A";
  subject = none;
  mode = workshop;
  starts_at = day;
  ends_at = some "z";
  present_count = 0;
  total_count = 0;
  flag_count = 0;
  pending_flag_count = 0;
  vnei = some (record { total = vnei; weight = 1 });
  coverage = none;
  reportable_windows = 1;
  vnei_weight = some weight;
  coverage_weight = none;
}

abbrev three : List SessionHistoryRow
three = workshop_on "b" 500 2 ∷ workshop_on "a" 300 1 ∷ workshop_on "b" 800 1 ∷ []

abbrev plotted : String → ℕ → ℕ → TrendPoint
plotted day value weight = record {
  date = day;
  label = day;
  attendance = none;
  vnei = some (record { total = value; weight = weight });
  coverage = none;
}

trend_test : trend_from_history calendar three ≡ plotted "a" 300 1 ∷ plotted "b" 1800 3 ∷ []
unfolding trend_from_history by_day series sort insert upsert_all get set
trend_test = refl

series-by_day_example :
    point_at calendar "b"
      (series calendar (by_day calendar (λ s. s.starts_at) (history_share calendar) three))
    ≡ point_of calendar "b"
        (day_total (history_share calendar) (with_key (λ s. s.starts_at) "b" three))
series-by_day_example = series-by_day calendar (λ s. s.starts_at) (history_share calendar) three "b"

calendar-total : (s t : String) → calendar.not_after s t ≡ false → calendar.not_after t s ≡ true
calendar-total s t h = ground arith

day_label-local_date_key_example :
    (day_label (local_date_key 2026 10 5) ≡ some (append (show 5) ("/" ∷∷ show (10 + 1))))
    × ((y m d : ℕ)
        → local_date_key 2026 10 5 ≡ local_date_key y m d
        → (2026 ≡ y) × (10 ≡ m) × (5 ≡ d))
day_label-local_date_key_example = day_label-local_date_key 2026 10 5

key_of_5_january : local_date_key 2026 0 5 ≡ "2026-01-05"
unfolding local_date_key show
key_of_5_january = refl
