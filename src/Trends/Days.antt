-- ===== src/Trends/Days.antt =====
-- The trend series against a direct description: for each day that has a session one point, with the
-- sums over that day's sessions, in the order of the days.
use sensepro.Prelude.{
  ◌≡◌, refl, ◌∙◌, ap, String, Option, none, some, List, [], ◌∷◌, map, sum_by, str_eq, eq_iff,
  get_or_default, arith, find?,
}
use sensepro.Prelude.Dict.{Dict, get, Distinct}
use sensepro.Prelude.Upsert.{Distinct-upsert_all}
use sensepro.Prelude.Sort.{sort, get-sort}
use sensepro.Sessions.Counts.{with_key, touch_all, get-upsert_all}
use sensepro.Trends.{
  Calendar, TrendPoint, DayTotals, no_totals, plus, by_day, day_order, point, series,
}

module _ {ℓ} {A : Type ℓ} (share : A → DayTotals) where
  -- The sums over some sessions.
  abbrev pub total : List A → DayTotals
  total xs = record {
    n_present = sum_by (λ s. (share s).n_present) xs;
    n_total = sum_by (λ s. (share s).n_total) xs;
    vnei_weighted = sum_by (λ s. (share s).vnei_weighted) xs;
    vnei_weight = sum_by (λ s. (share s).vnei_weight) xs;
    coverage_weighted = sum_by (λ s. (share s).coverage_weighted) xs;
    coverage_weight = sum_by (λ s. (share s).coverage_weight) xs;
  }

  -- A day's totals, if it has a session.
  abbrev pub day_total : List A → Option DayTotals
  day_total [] = none
  day_total (x ∷ xs) = some (total (x ∷ xs))

  touch_all-plus :
      (key : A → String) (xs : List A) (d : DayTotals)
      → touch_all key (λ s o. plus (get_or_default o no_totals) (share s)) xs (some d)
        ≡ some (plus d (total xs))
  unfolding touch_all
  touch_all-plus key [] d = ground arith
  touch_all-plus key (x ∷ xs) d = ground (arith, touch_all-plus key xs (plus d (share x)))

  touch_all-none :
      (key : A → String) (xs : List A)
      → touch_all key (λ s o. plus (get_or_default o no_totals) (share s)) xs none ≡ day_total xs
  unfolding touch_all
  touch_all-none key [] = refl
  touch_all-none key (x ∷ xs) = ground (arith, touch_all-plus key xs (plus no_totals (share x)))

  get-by_day :
      (c : Calendar) (start : A → String) (k : String) (xs : List A)
      → get k (by_day c start share xs) ≡ day_total (with_key (λ s. c.day_of (start s)) k xs)
  unfolding by_day get
  get-by_day c start k xs =
      get-upsert_all (λ s. c.day_of (start s)) _ k xs []
      ∙ touch_all-none (λ s. c.day_of (start s)) (with_key (λ s. c.day_of (start s)) k xs)

  pub Distinct-by_day :
      (c : Calendar) (start : A → String) (xs : List A) → Distinct (by_day c start share xs)
  unfolding by_day
  Distinct-by_day c start xs = Distinct-upsert_all (λ s. c.day_of (start s)) _ xs [] tt

module _ (c : Calendar) where
  -- The points of a map are those of its entries.
  abbrev pub point_at : String → List TrendPoint → Option TrendPoint
  point_at k points = find? (λ p. str_eq p.date k) points

  abbrev pub point_of : String → Option DayTotals → Option TrendPoint
  point_of k none = none
  point_of k (some d) = some (point c (k, d))

  point_at-map :
      (k : String) (m : Dict DayTotals) → point_at k (map (point c) m) ≡ point_of k (get k m)
  unfolding get
  point_at-map k [] = refl
  point_at-map k ((j, v) ∷ m) = ground (arith, eq_iff j k, point_at-map k m)

-- The series has a point for a day exactly if a session starts on it, and the point is made of the
-- sums over that day's sessions.
pub series-by_day {ℓ} :
    {A : Type ℓ} (c : Calendar) (start : A → String) (share : A → DayTotals) (sessions : List A)
    (k : String)
    → point_at c k (series c (by_day c start share sessions))
      ≡ point_of c k (day_total share (with_key (λ s. c.day_of (start s)) k sessions))
unfolding series
series-by_day c start share sessions k =
    let days = by_day c start share sessions in
    point_at-map c k (sort (day_order c) days)
    ∙ ap (point_of c k) (
        get-sort (day_order c) k days (Distinct-by_day share c start sessions)
        ∙ get-by_day share c start k sessions)
