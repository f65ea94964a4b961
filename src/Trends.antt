-- ===== src/Trends.antt =====
-- apps/web/src/lib/data/live.ts, `fetchTrendSeries`: the sessions of the last days, folded into one
-- point for each local day. `Calendar` holds what depends on the browser's clock and arithmetic.
pub mod Days
pub mod Order
pub mod Keys
mod Tests
use sensepro.Prelude.{
  ℕ, ◌+◌, String, Bool, ◌&&◌, Option, none, some, List, [], ◌∷◌, map, filter, length, ltb,
  if◌then◌else◌, get_or_default, is_some,
}
use sensepro.Prelude.Dict.{Dict, get}
use sensepro.Prelude.Upsert.{upsert_all}
use sensepro.Prelude.Sort.{sort}
use sensepro.Http.{Reply, replied, thrown, Query, Outcome, ok, err, ◌>>=◌, checked}
use sensepro.Engagement.{AggregateSummary, Mean, summaries_by_session}
use sensepro.LiveRoster.{Mode, lecture, workshop}
use sensepro.Sessions.{present_by_session, roster_size_by_section}
use sensepro.SessionTables.{
  SessionRow, Database, SessionHistoryRow, same_mode, lecture_presence, lecture_students,
  workshop_zones,
}

pub record Calendar : Type 0 where
  pub times : Mean → ℕ → ℕ  -- a mean times a weight, as the source's arithmetic rounds it
  pub day_of : String → String  -- `localDateKey`
  pub label_of : String → String  -- the day and month of such a key
  pub recent : String → Bool  -- `starts_at >= since`
  pub not_after : String → String → Bool  -- `a.localeCompare(b) <= 0`

pub record TrendPoint : Type 0 where
  pub date : String
  pub label : String
  pub attendance : Option Mean
  pub vnei : Option Mean
  pub coverage : Option Mean

-- What a day has accumulated: sums of weighted values and of weights.
pub record DayTotals : Type 0 where
  pub n_present : ℕ
  pub n_total : ℕ
  pub vnei_weighted : ℕ
  pub vnei_weight : ℕ
  pub coverage_weighted : ℕ
  pub coverage_weight : ℕ

abbrev pub no_totals : DayTotals
no_totals = record {
  n_present = 0;
  n_total = 0;
  vnei_weighted = 0;
  vnei_weight = 0;
  coverage_weighted = 0;
  coverage_weight = 0;
}

abbrev pub plus : DayTotals → DayTotals → DayTotals
plus a b = record {
  n_present = a.n_present + b.n_present;
  n_total = a.n_total + b.n_total;
  vnei_weighted = a.vnei_weighted + b.vnei_weighted;
  vnei_weight = a.vnei_weight + b.vnei_weight;
  coverage_weighted = a.coverage_weighted + b.coverage_weighted;
  coverage_weight = a.coverage_weight + b.coverage_weight;
}

-- `total > 0 ? value / total : null`.
abbrev pub ratio : ℕ → ℕ → Option Mean
ratio value total = if ltb 0 total then some (record { total = value; weight = total }) else none

-- A value that is there and has a weight: its weighted value, and its weight.
abbrev weighted : Calendar → Option Mean → ℕ → ℕ
weighted c none weight = 0
weighted c (some m) weight = if ltb 0 weight then c.times m weight else 0

abbrev weight_of : Option Mean → ℕ → ℕ
weight_of none weight = 0
weight_of (some m) weight = if ltb 0 weight then weight else 0

-- What a session of the API adds to its day.
abbrev pub history_share : Calendar → SessionHistoryRow → DayTotals
history_share c s =
    let vw = get_or_default s.vnei_weight s.reportable_windows in
    let cw = get_or_default s.coverage_weight s.reportable_windows in
    record {
      n_present = 0;
      n_total = 0;
      vnei_weighted = weighted c s.vnei vw;
      vnei_weight = weight_of s.vnei vw;
      coverage_weighted = weighted c s.coverage cw;
      coverage_weight = weight_of s.coverage cw;
    }

abbrev times_of : Calendar → Option Mean → ℕ → ℕ
times_of c none weight = 0
times_of c (some m) weight = c.times m weight

abbrev if_some : Option Mean → ℕ → ℕ
if_some none weight = 0
if_some (some m) weight = weight

abbrev summary_share : Calendar → Option AggregateSummary → DayTotals
summary_share c none = no_totals
summary_share c (some a) = record {
  n_present = 0;
  n_total = 0;
  vnei_weighted = times_of c a.vnei a.vnei_weight;
  vnei_weight = if_some a.vnei a.vnei_weight;
  coverage_weighted = times_of c a.coverage a.coverage_weight;
  coverage_weight = if_some a.coverage a.coverage_weight;
}

abbrev lecture_share : Mode → ℕ → ℕ
lecture_share mode n = if same_mode mode lecture then n else 0

-- What a session of the tables adds to its day.
abbrev pub session_share :
    Calendar → Dict (List String) → Dict ℕ → Dict AggregateSummary → SessionRow → DayTotals
session_share c present sizes summaries s =
    plus
      (record no_totals {
        n_present = lecture_share s.mode (length (get_or_default (get s.id present) []));
        n_total = lecture_share s.mode (get_or_default (get s.class_section sizes) 0);
      })
      (summary_share c (get s.id summaries))

-- The loops over the sessions, for sessions that start at `start` and add `share`.
unfoldable pub by_day {ℓ} :
    {A : Type ℓ} → Calendar → (A → String) → (A → DayTotals) → List A → Dict DayTotals
by_day c start share sessions =
    upsert_all (λ s. c.day_of (start s)) (λ s o. plus (get_or_default o no_totals) (share s))
      sessions []

-- `[…].sort(([a], [b]) => a.localeCompare(b))` on the entries.
abbrev pub day_order : Calendar → String × DayTotals → String × DayTotals → Bool
day_order c e f = c.not_after e.0 f.0

abbrev pub point : Calendar → String × DayTotals → TrendPoint
point c e = record {
  date = e.0;
  label = c.label_of e.0;
  attendance = ratio e.1.n_present e.1.n_total;
  vnei = ratio e.1.vnei_weighted e.1.vnei_weight;
  coverage = ratio e.1.coverage_weighted e.1.coverage_weight;
}

unfoldable pub series : Calendar → Dict DayTotals → List TrendPoint
series c days = map (point c) (sort (day_order c) days)

unfoldable pub trend_from_tables :
    Calendar → Database → List SessionRow → Outcome (List TrendPoint) String
unfolding by_day series
trend_from_tables c db [] = ok []
trend_from_tables c db (s ∷ sessions) =
    let all_sessions = s ∷ sessions in
    lecture_presence db all_sessions >>= λ presence.
    lecture_students db all_sessions >>= λ students. workshop_zones db all_sessions >>= λ zones.
    ok (
      series c (
        by_day c (λ t. t.starts_at)
          (session_share c (present_by_session presence) (roster_size_by_section students)
            (summaries_by_session zones))
          all_sessions))

unfoldable pub trend_from_history : Calendar → List SessionHistoryRow → List TrendPoint
unfolding by_day series
trend_from_history c history = series c (
    by_day c (λ s. s.starts_at) (history_share c)
      (filter (λ s. is_some s.ends_at && c.recent s.starts_at) history))

-- Only the workshop series asks the API, and an error of that request is thrown on.
unfoldable pub fetch_trend_series :
    Calendar
    → Option Mode
    → Reply (List SessionHistoryRow)
    → Query (List SessionRow)
    → Database
    → Outcome (List TrendPoint) String
unfolding trend_from_tables trend_from_history
fetch_trend_series c (some workshop) (replied history) query db = ok (trend_from_history c history)
fetch_trend_series c (some workshop) (thrown e) query db = err e
fetch_trend_series c mode _ query db = checked query >>= trend_from_tables c db
