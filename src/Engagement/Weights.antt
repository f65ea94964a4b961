-- ===== src/Engagement/Weights.antt =====
-- Which rows a class summary counts: those of `summariseAggregates`, window by window.
use sensepro.Prelude.{
  ℕ, String, ◌≡◌, refl, Bool, true, false, ◌&&◌, ◌⊎◌, inl, inr, List, [], ◌∷◌, ltb, filter, any,
  length, sum_by, sum_by-append, str_eq, eq_iff, arith, All, All-append, All-imp, Bool-cases,
}
use sensepro.Prelude.Dict.{Dict}
use sensepro.Prelude.Groups.{sum_groups, sum_groups-group_by, group_by-entries}
use sensepro.Engagement.{
  AggregateMetricRow, is_class, window_report, report_rows, by_window, visible, enrolled,
  summarise_aggregates,
}

abbrev starts : String → AggregateMetricRow → Bool
starts k r = str_eq r.window_start k

-- A window of `rows` has a class row.
abbrev pub has_class : List AggregateMetricRow → String → Bool
has_class rows k = any (λ q. starts k q && is_class q) rows

filter-eq-nil_of_none :
    (p : AggregateMetricRow → Bool) (rows : List AggregateMetricRow)
    → any p rows ≡ false
    → filter p rows ≡ []
filter-eq-nil_of_none p [] h = refl
filter-eq-nil_of_none p (r ∷ rows) h = ground (arith, filter-eq-nil_of_none p rows)

abbrev pub Counted : List AggregateMetricRow → AggregateMetricRow → Type 0
Counted rows r = (is_class r ≡ true) ⊎ (has_class rows r.window_start ≡ false)

class_rows-Counted : (rows ws : List AggregateMetricRow) → All (Counted rows) (filter is_class ws)
class_rows-Counted rows [] = tt
class_rows-Counted rows (w ∷ ws) = ground (arith, class_rows-Counted rows ws)

-- Without a class row in the window, all of its rows are zones.
any-class-window :
    (k : String) (rows : List AggregateMetricRow)
    → ltb 0 (length (filter is_class (filter (starts k) rows))) ≡ false
    → has_class rows k ≡ false
any-class-window k [] h = refl
any-class-window k (r ∷ rows) h = ground (arith, any-class-window k rows)

in_window-Counted :
    (all_rows rows : List AggregateMetricRow) (k : String)
    → has_class all_rows k ≡ false
    → All (Counted all_rows) (filter (starts k) rows)
in_window-Counted all_rows [] k h = tt
in_window-Counted all_rows (r ∷ rows) k h =
    ground (arith, eq_iff r.window_start k, in_window-Counted all_rows rows k h)

window_report-Counted :
    (k : String) (rows : List AggregateMetricRow)
    → All (Counted rows) (window_report (filter (starts k) rows))
window_report-Counted k rows =
    elim (Bool-cases (ltb 0 (length (filter is_class (filter (starts k) rows))))) [
      | inl some_class ↦ rw some_class (class_rows-Counted rows (filter (starts k) rows))
      | inr no_class ↦
          rw no_class (in_window-Counted rows rows k (any-class-window k rows no_class))
    ]

report_rows-Counted :
    (rows : List AggregateMetricRow) (m : Dict (List AggregateMetricRow))
    → All (λ e. e.1 ≡ filter (starts e.0) rows) m
    → All (Counted rows) (report_rows m)
unfolding report_rows
report_rows-Counted rows [] _ = tt
report_rows-Counted rows ((k, ws) ∷ m) (e, h) =
    All-append (Counted rows) (window_report ws) (report_rows m)
      (rw e (window_report-Counted k rows)) (report_rows-Counted rows m h)

-- Every row that a summary counts is a class row, or lies in a window that has no class row: the
-- zones of a window are never counted beside its class row.
pub report_rows-by_window-Counted :
    (rows : List AggregateMetricRow) → All (Counted rows) (report_rows (by_window rows))
report_rows-by_window-Counted rows =
    report_rows-Counted rows (by_window rows) (group_by-entries (λ r. r.window_start) rows)

any-filter-false :
    (p q : AggregateMetricRow → Bool) (rows : List AggregateMetricRow)
    → any p rows ≡ false
    → any p (filter q rows) ≡ false
any-filter-false p q [] h = refl
any-filter-false p q (r ∷ rows) h = ground (arith, any-filter-false p q rows)

sum-report_rows :
    (f : AggregateMetricRow → ℕ) (m : Dict (List AggregateMetricRow))
    → All (λ e. any is_class e.1 ≡ false) m
    → sum_by f (report_rows m) ≡ sum_groups f m
unfolding report_rows sum_groups
sum-report_rows f [] _ = refl
sum-report_rows f ((k, ws) ∷ m) (e, h) =
    rw (filter-eq-nil_of_none is_class ws e)
      (omega (arith, sum_by-append f ws (report_rows m), sum-report_rows f m h))

-- Where the pipeline wrote zone rows only, every row is counted exactly once: the weights of the
-- summary are the sums over all rows.
pub summarise_aggregates-zones :
    (rows : List AggregateMetricRow)
    → any is_class rows ≡ false
    → ((summarise_aggregates rows).vnei_weight ≡ sum_by visible rows)
      × ((summarise_aggregates rows).coverage_weight ≡ sum_by enrolled rows)
unfolding summarise_aggregates
summarise_aggregates-zones rows none_class =
    let zones : All (λ e. any is_class e.1 ≡ false) (by_window rows) =
      All-imp (by_window rows)
        (λ e h. rw h (any-filter-false is_class (starts e.0) rows none_class))
        (group_by-entries (λ r. r.window_start) rows) in
    (
      omega (
        arith,
        sum-report_rows visible (by_window rows) zones,
        sum_groups-group_by (λ r. r.window_start) visible rows,
      ),
      omega (
        arith,
        sum-report_rows enrolled (by_window rows) zones,
        sum_groups-group_by (λ r. r.window_start) enrolled rows,
      ),
    )
