-- ===== src/MePage/Types.antt =====
-- The counts by type of routes/_shell.me.tsx.
use sensepro.Prelude.{
  ℕ, ◌+◌, ◌≡◌, ◌≤◌, refl, true, false, List, [], ◌∷◌, map, filter, length, sum_by, ltb, arith, inl,
  inr, ◌⊎◌, ◌∙◌, length-filter-le, All,
}
use sensepro.LiveRoster.{Mode, lecture, exam, workshop, is_present}
use sensepro.SessionTables.{same_mode}
use sensepro.MyAttendance.{MyAttendanceRow}
use sensepro.MePage.{TypeCount, count_of, by_type}

abbrev pub of_type : List MyAttendanceRow → Mode → ℕ
of_type rows mode = length (filter (λ h. same_mode h.mode mode) rows)

is_one_mode :
    (m : Mode)
    → ((same_mode m lecture ≡ true) × (same_mode m exam ≡ false) × (same_mode m workshop ≡ false))
      ⊎ ((same_mode m lecture ≡ false) × (same_mode m exam ≡ true) × (same_mode m workshop ≡ false))
      ⊎ ((same_mode m lecture ≡ false) × (same_mode m exam ≡ false) × (same_mode m workshop ≡ true))
is_one_mode lecture = inl (refl, refl, refl)
is_one_mode exam = inr (inl (refl, refl, refl))
is_one_mode workshop = inr (inr (refl, refl, refl))

-- The modes share the rows out.
modes-length :
    (rows : List MyAttendanceRow)
    → of_type rows lecture + (of_type rows exam + of_type rows workshop) ≡ length rows
modes-length [] = refl
modes-length (h ∷ rows) = ground (arith, modes-length rows, is_one_mode h.mode)

-- The filter for counts above 0 drops nothing from the sum.
sum-positive :
    (ts : List TypeCount)
    → sum_by (λ t. t.total) (filter (λ t. ltb 0 t.total) ts) ≡ sum_by (λ t. t.total) ts
sum-positive [] = refl
sum-positive (t ∷ ts) = ground (arith, sum-positive ts)

abbrev pub IsCount : TypeCount → Type 0
IsCount t = (1 ≤ t.total) × (t.present ≤ t.total)

positive-All :
    (ts : List TypeCount)
    → All (λ t. t.present ≤ t.total) ts
    → All IsCount (filter (λ t. ltb 0 t.total) ts)
positive-All [] h = tt
positive-All (t ∷ ts) (e, h) = ground (arith, e, positive-All ts h)

abbrev counts : List MyAttendanceRow → List TypeCount
counts rows = map (count_of rows) (lecture ∷ exam ∷ workshop ∷ [])

modes-length-counts :
    (rows : List MyAttendanceRow) → sum_by (λ t. t.total) (counts rows) ≡ length rows
unfolding count_of
modes-length-counts rows = omega (arith, modes-length rows)

present-le :
    (rows : List MyAttendanceRow) (m : Mode) → (count_of rows m).present ≤ (count_of rows m).total
unfolding count_of
present-le rows m =
    length-filter-le (λ h. is_present h.state) (filter (λ h. same_mode h.mode m) rows)

-- The types that the page lists share the whole history out: their totals add up to its length, and each
-- listed type has a session and at most as many present ones as sessions.
pub by_type-shares :
    (rows : List MyAttendanceRow)
    → (sum_by (λ t. t.total) (by_type rows) ≡ length rows) × All IsCount (by_type rows)
unfolding by_type
by_type-shares rows = (
  sum-positive (counts rows) ∙ modes-length-counts rows,
  positive-All (counts rows)
      (present-le rows lecture, (present-le rows exam, (present-le rows workshop, tt))),
)
