-- ===== src/Engagement/Bounds.antt =====
-- The range of a summary's means, and the summary of each session.
use sensepro.Prelude.{
  ℕ, String, ◌*◌, ◌≤◌, ◌<◌, ◌≡◌, refl, none, some, List, [], ◌∷◌, ltb, if◌then◌else◌, filter, any,
  length, sum_by, str_eq, arith, All, All-append, All-filter, Bool-cases, get_or_default, inl, inr,
}
use sensepro.Prelude.Dict.{Dict, get, has, group_by}
use sensepro.Prelude.Groups.{get-group_by, has-group_by, group_by-entries}
use sensepro.Engagement.{
  AggregateMetricRow, Mean, is_class, window_report, report_rows, by_window, visible, weighted_mean,
  summarise_aggregates, summarise_groups, summaries_by_session,
}

module _ {κ} (P : AggregateMetricRow → Type κ) where
  All-report_rows :
      (rows : List AggregateMetricRow) (m : Dict (List AggregateMetricRow))
      → All P rows
      → All (λ e. e.1 ≡ filter (λ r. str_eq r.window_start e.0) rows) m
      → All P (report_rows m)
  unfolding report_rows
  All-report_rows rows [] h _ = tt
  All-report_rows rows ((k, ws) ∷ m) h (e, es) =
      let in_window : All P ws = rw e (All-filter P (λ r. str_eq r.window_start k) rows h) in
      All-append P (window_report ws) (report_rows m)
        (elim (Bool-cases (ltb 0 (length (filter is_class ws)))) [
          | inl c ↦ rw c (All-filter P is_class ws in_window)
          | inr c ↦ rw c in_window
        ])
        (All-report_rows rows m h es)

  pub All-report_rows-by_window :
      (rows : List AggregateMetricRow) → All P rows → All P (report_rows (by_window rows))
  All-report_rows-by_window rows h =
      All-report_rows rows (by_window rows) h (group_by-entries (λ r. r.window_start) rows)

module _ (value weight : AggregateMetricRow → ℕ) (lo hi : ℕ) where
  sum_by_bounds :
      (rows : List AggregateMetricRow)
      → All (λ r. (lo ≤ value r) × (value r ≤ hi)) rows
      → (lo * sum_by weight rows ≤ sum_by (λ r. value r * weight r) rows)
        × (sum_by (λ r. value r * weight r) rows ≤ hi * sum_by weight rows)
  sum_by_bounds [] _ = omega arith
  sum_by_bounds (r ∷ rows) ((l, u), h) =
      let (below, above) = sum_by_bounds rows h in (grind arith, grind arith)

-- If every row's index lies between `lo` and `hi` and there is a mean, then so does the mean; its
-- divisor is the published weight, and it is positive.
pub summarise_aggregates_bounds :
    (lo hi : ℕ) (rows : List AggregateMetricRow) (m : Mean)
    → All (λ r. (lo ≤ r.vnei) × (r.vnei ≤ hi)) rows
    → (summarise_aggregates rows).vnei ≡ some m
    → (0 < m.weight)
      × (m.weight ≡ (summarise_aggregates rows).vnei_weight)
      × (lo * m.weight ≤ m.total)
      × (m.total ≤ hi * m.weight)
unfolding summarise_aggregates weighted_mean
summarise_aggregates_bounds lo hi rows m h e =
    let reported = report_rows (by_window rows) in
    let bounds =
      sum_by_bounds (λ r. r.vnei) visible lo hi reported
        (All-report_rows-by_window (λ r. (lo ≤ r.vnei) × (r.vnei ≤ hi)) rows h) in
    ground (arith, bounds)

get-summarise_groups :
    (id : String) (m : Dict (List AggregateMetricRow))
    → get id (summarise_groups m)
      ≡ (if has id m then some (summarise_aggregates (get_or_default (get id m) [])) else none)
unfolding summarise_groups get has
get-summarise_groups id [] = refl
get-summarise_groups id ((k, rows) ∷ m) = ground (arith, get-summarise_groups id m)

-- A session has a summary exactly if it has a row, and it is the summary of its own rows alone.
pub get-summaries_by_session :
    (id : String) (rows : List AggregateMetricRow)
    → get id (summaries_by_session rows) ≡ (
        if any (λ r. str_eq r.session_id id) rows
        then some (summarise_aggregates (filter (λ r. str_eq r.session_id id) rows))
        else none)
unfolding summaries_by_session
get-summaries_by_session id rows = rw (
  get-summarise_groups id (group_by (λ r. r.session_id) rows),
  has-group_by (λ r. r.session_id) id rows,
  get-group_by (λ r. r.session_id) id rows,
)
