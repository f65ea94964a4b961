-- ===== src/Enrollment/Tiles.antt =====
-- The tiles and the list of the enrollment station agree with the rows that were loaded.
use sensepro.Prelude.{
  inl, inr, ◌⊎◌, ℕ, ◌+◌, ◌≡◌, refl, String, Bool, true, false, some, List, [], ◌∷◌, map, length,
  filter, any, length-map, ◌∙◌, if◌then◌else◌, All, str_eq, eq_refl, arith,
}
use sensepro.Prelude.Dict.{Dict, get, set, get-set}
use sensepro.Prelude.Upsert.{upsert_all, upsert_all-other}
use sensepro.Http.{rows}
use sensepro.Enrollment.{
  Quality, good, fair, weak, missing, StudentRow, EmbStat, CoverageRow, quality_of, Station,
  stat_of_row, student_of_row, aggregate, load_end, stat_for, Counts, add_one, zero_counts,
  count_students, summary, is_good, filtered, is_listed,
}

abbrev pub same_quality : Quality → Quality → Bool
same_quality good good = true
same_quality fair fair = true
same_quality weak weak = true
same_quality missing missing = true
same_quality _ _ = false

-- `summary[q]`.
abbrev pub tile : Quality → Counts → ℕ
tile good c = c.good
tile fair c = c.fair
tile weak c = c.weak
tile missing c = c.missing

tile-add_one :
    (q r : Quality) (c : Counts)
    → tile q (add_one r c) ≡ (if same_quality q r then tile q c + 1 else tile q c)
unfolding add_one
tile-add_one good r c = ground arith
tile-add_one fair r c = ground arith
tile-add_one weak r c = ground arith
tile-add_one missing r c = ground arith

tile-zero_counts : (q : Quality) → tile q zero_counts ≡ 0
tile-zero_counts q = ground arith

abbrev student_quality : Station → StudentRow → Quality
student_quality s x = quality_of (stat_for s x.id)

tile-count_students :
    (q : Quality) (s : Station) (xs : List StudentRow) (c : Counts)
    → tile q (count_students s xs c)
      ≡ tile q c + length (filter (λ x. same_quality q (student_quality s x)) xs)
unfolding count_students
tile-count_students q s [] c = omega arith
tile-count_students q s (x ∷ xs) c = ground (
  arith,
  tile-count_students q s xs (add_one (student_quality s x) c),
  tile-add_one q (student_quality s x) c,
)

total-add_one :
    (r : Quality) (c : Counts)
    → let d : Counts = add_one r c in
      d.good + d.fair + d.weak + d.missing ≡ c.good + c.fair + c.weak + c.missing + 1
unfolding add_one
total-add_one r c = ground arith

total-count_students :
    (s : Station) (xs : List StudentRow) (c : Counts)
    → let d : Counts = count_students s xs c in
      d.good + d.fair + d.weak + d.missing ≡ c.good + c.fair + c.weak + c.missing + length xs
unfolding count_students
total-count_students s [] c = omega arith
total-count_students s (x ∷ xs) c = omega (
  arith,
  total-count_students s xs (add_one (student_quality s x) c),
  total-add_one (student_quality s x) c,
)

-- No two rows are of the same student, as in the coverage view.
abbrev pub Distinct : List CoverageRow → Type 0
Distinct [] = Unit
Distinct (r ∷ rs) = (any (λ x. str_eq x.student_id r.student_id) rs ≡ false) × Distinct rs

get-upsert_rows :
    (rs : List CoverageRow) (m : Dict EmbStat)
    → Distinct rs
    → All
        (λ r.
          get r.student_id (upsert_all (λ x. x.student_id) (λ x _. stat_of_row x) rs m)
          ≡ some (stat_of_row r))
        rs
unfolding upsert_all
get-upsert_rows [] m d = tt
get-upsert_rows (r ∷ rs) m (n, d) =
    let m2 = set r.student_id (stat_of_row r) m in
    (
      upsert_all-other (λ x. x.student_id) (λ x _. stat_of_row x) r.student_id rs m2 n
          ∙ get-set r.student_id r.student_id (stat_of_row r) m
          ∙ rw (eq_refl r.student_id),
      get-upsert_rows rs m2 d,
    )

length-filter-map :
    (s : Station) (q : Quality) (rs : List CoverageRow)
    → All (λ r. get r.student_id s.stats ≡ some (stat_of_row r)) rs
    → length (filter (λ x. same_quality q (student_quality s x)) (map student_of_row rs))
      ≡ length (filter (λ r. same_quality q (quality_of (stat_of_row r))) rs)
unfolding student_of_row stat_for
length-filter-map s q [] h = refl
length-filter-map s q (r ∷ rs) (e, h) = rw e (ground (arith, length-filter-map s q rs h))

-- After the coverage view has been loaded, whose rows are of different students, each tile shows how
-- many rows have its quality, and the four tiles add up to the number of rows.
pub summary-load_end :
    (found : List CoverageRow) (s : Station) (q : Quality)
    → Distinct found
    → let c : Counts = summary (load_end (rows (some found)) s) in
      (tile q c ≡ length (filter (λ r. same_quality q (quality_of (stat_of_row r))) found))
      × (c.good + c.fair + c.weak + c.missing ≡ length found)
unfolding load_end summary aggregate
summary-load_end found s q d =
    let t : Station = load_end (rows (some found)) s in
    let xs = map student_of_row found in
    (
      tile-count_students q t xs zero_counts
          ∙ omega
              (arith, tile-zero_counts q, length-filter-map t q found (get-upsert_rows found [] d)),
      total-count_students t xs zero_counts ∙ omega (arith, length-map found student_of_row),
    )

quality_cases : (q : Quality) → (q ≡ good) ⊎ ((is_good q ≡ false) × (same_quality good q ≡ false))
quality_cases q = ground arith

module _ (includes : String → String → Bool) (lower : String → String) where
  count_listed :
      (s : Station) (xs : List StudentRow)
      → length (filter (is_listed includes lower s "" true) xs)
          + length (filter (λ x. same_quality good (student_quality s x)) xs)
        ≡ length xs
  unfolding is_listed
  count_listed s [] = refl
  count_listed s (x ∷ xs) = elim (quality_cases (student_quality s x)) [
    | inl g ↦ rw g (omega (arith, count_listed s xs))
    | inr (b, n) ↦ ground (arith, count_listed s xs)
  ]

  -- Without a search text, the box for students that are not complete lists exactly as many students
  -- as the tile of the complete ones leaves.
  pub filtered-good :
      (s : Station)
      → length (filtered includes lower s "" true) + (summary s).good ≡ length s.students
  unfolding filtered summary
  filtered-good s =
      omega (arith, count_listed s s.students, tile-count_students good s s.students zero_counts)
