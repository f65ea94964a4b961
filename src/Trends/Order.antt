-- ===== src/Trends/Order.antt =====
-- The order of the trend series.
use sensepro.Prelude.{
  ◌≡◌, refl, ◌∙◌, String, true, false, List, [], ◌∷◌, map, arith, any, str_eq, ap,
}
use sensepro.Prelude.Dict.{Dict, Distinct, has}
use sensepro.Trends.{Calendar, TrendPoint, DayTotals, by_day, day_order, point, series}
use sensepro.Prelude.Sort.{sort, Distinct-sort, Ascending, sort-Ascending}
use sensepro.Trends.Days.{Distinct-by_day}

abbrev pub dates : List TrendPoint → List String
dates points = map (λ p. p.date) points

abbrev days_of : Dict DayTotals → List String
days_of m = map (λ e. e.0) m

-- No text occurs twice.
abbrev pub DistinctTexts : List String → Type 0
DistinctTexts [] = Unit
DistinctTexts (k ∷ ks) = (any (λ j. str_eq j k) ks ≡ false) × DistinctTexts ks

dates-map : (c : Calendar) (m : Dict DayTotals) → dates (map (point c) m) ≡ days_of m
dates-map c [] = refl
dates-map c (e ∷ m) = ap (λ ks. e.0 ∷ ks) (dates-map c m)

-- Each text is not after the next.
abbrev Follows : Calendar → String → List String → Type 0
Follows c k [] = Unit
Follows c k (j ∷ ks) = c.not_after k j ≡ true

abbrev pub AscendingTexts : Calendar → List String → Type 0
AscendingTexts c [] = Unit
AscendingTexts c (k ∷ ks) = Follows c k ks × AscendingTexts c ks

days_of-Ascending :
    (c : Calendar) (m : Dict DayTotals) → Ascending (day_order c) m → AscendingTexts c (days_of m)
days_of-Ascending c [] h = tt
days_of-Ascending c (e ∷ []) h = (tt, tt)
days_of-Ascending c (e ∷ f ∷ m) (l, h) = (l, days_of-Ascending c (f ∷ m) h)

any-days_of : (k : String) (m : Dict DayTotals) → any (λ j. str_eq j k) (days_of m) ≡ has k m
unfolding has
any-days_of k [] = refl
any-days_of k (e ∷ m) = ground (arith, any-days_of k m)

Distinct-days_of : (m : Dict DayTotals) → Distinct m → DistinctTexts (days_of m)
Distinct-days_of [] d = tt
Distinct-days_of ((j, v) ∷ m) (n, d) = (any-days_of j m ∙ n, Distinct-days_of m d)

-- If `localeCompare` puts any two days in one order or the other, the points are in the order of their
-- dates, and no date has two points.
pub series-Ascending {ℓ} :
    {A : Type ℓ} (c : Calendar) (start : A → String) (share : A → DayTotals) (sessions : List A)
    → ((a b : String) → c.not_after a b ≡ false → c.not_after b a ≡ true)
    → AscendingTexts c (dates (series c (by_day c start share sessions)))
      × DistinctTexts (dates (series c (by_day c start share sessions)))
unfolding series
series-Ascending c start share sessions total =
    let days = by_day c start share sessions in
    rw (dates-map c (sort (day_order c) days)) (
      days_of-Ascending c (sort (day_order c) days)
          (sort-Ascending (day_order c) (λ a b. total a.0 b.0) days),
      Distinct-days_of (sort (day_order c) days)
          (Distinct-sort (day_order c) days (Distinct-by_day share c start sessions)),
    )
