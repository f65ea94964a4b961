-- ===== src/LiveRoster/Derive.antt =====
-- What `deriveRoster` computes, and the numbers that the page shows beside it.
use sensepro.Prelude.{
  ◌⊎◌, inl, inr, ℕ, ◌+◌, ◌-◌, ◌≤◌, ◌≡◌, refl, String, List, [], ◌∷◌, map, arith, filter, length,
  str_eq, ap, ◌++◌, none, some, sum_by, get_last?, true, false,
}
use sensepro.Prelude.Groups.{get-group_by}
use sensepro.LiveRoster.{
  present, unverified, absent, StudentRow, IntervalRow, RosterEntry, entry, derive_roster, end_of,
  present_time, Counts, count_from, Filter, all_states, only, filtered, filter_count, same_state,
  bump,
}

-- The roster is made of each student's own intervals.
derive_roster-own :
    (parse : String → ℕ) (now : ℕ) (students : List StudentRow) (intervals : List IntervalRow)
    → derive_roster parse now students intervals
      ≡ map (λ s. entry parse now s (filter (λ iv. str_eq iv.student_id s.id) intervals)) students
unfolding derive_roster
derive_roster-own parse now [] intervals = refl
derive_roster-own parse now (s ∷ students) intervals =
    rw (get-group_by (λ iv. iv.student_id) s.id intervals) (
      ap (λ rest. entry parse now s (filter (λ iv. str_eq iv.student_id s.id) intervals) ∷ rest)
        (derive_roster-own parse now students intervals))

-- The intervals in which a student was present.
abbrev pub present_ones : List IntervalRow → List IntervalRow
present_ones own = filter (λ iv. same_state iv.state present) own

-- A row of the roster for a student with these intervals, oldest first: without any it is ABSENT and never
-- seen; else it has the state, the start and the origin of the last of them. Its time is the sum of
-- the times of the present ones.
abbrev pub IsRow : (String → ℕ) → ℕ → StudentRow → List IntervalRow → RosterEntry → Type 0
IsRow parse now s own e =
    (e.student_id ≡ s.reg_no)
    × (e.full_name ≡ s.full_name)
    × (((own ≡ []) × (e.state ≡ absent) × (e.last_seen ≡ none) × (e.via ≡ none))
        ⊎ ((older : List IntervalRow) × (newest : IntervalRow) × (own ≡ older ++ newest ∷ [])
            × (e.state ≡ newest.state)
            × (e.last_seen ≡ some newest.started_at)
            × (e.via ≡ newest.via)))
    × (e.present_ms ≡ sum_by (λ iv. end_of parse now iv - parse iv.started_at) (present_ones own))

-- The roster has a row for each student, in the students' order, made of that student's own intervals.
abbrev pub AreRows :
    (String → ℕ) → ℕ → List IntervalRow → List StudentRow → List RosterEntry → Type 0
AreRows parse now intervals [] [] = Unit
AreRows parse now intervals (s ∷ students) (e ∷ roster) =
    IsRow parse now s (filter (λ iv. str_eq iv.student_id s.id) intervals) e
    × AreRows parse now intervals students roster
AreRows parse now intervals _ _ = false ≡ true

get_last?-append :
    (older : List IntervalRow) (newest : IntervalRow)
    → get_last? (older ++ newest ∷ []) ≡ some newest
get_last?-append [] newest = refl
get_last?-append (iv ∷ []) newest = refl
get_last?-append (iv ∷ (jv ∷ older)) newest = get_last?-append (jv ∷ older) newest

sum-present :
    (parse : String → ℕ) (now : ℕ) (own : List IntervalRow)
    → sum_by (present_time parse now) own
      ≡ sum_by (λ iv. end_of parse now iv - parse iv.started_at) (present_ones own)
sum-present parse now [] = refl
sum-present parse now (iv ∷ own) = ground (arith, sum-present parse now own)

newest-cases :
    (own : List IntervalRow)
    → (own ≡ [])
      ⊎ ((older : List IntervalRow) × (newest : IntervalRow) × (own ≡ older ++ newest ∷ []))
newest-cases [] = inl refl
newest-cases (iv ∷ own) = elim (newest-cases own) [
  | inl e ↦ inr ([], iv, ap (λ rest. iv ∷ rest) e)
  | inr (older, newest, e) ↦ inr (iv ∷ older, newest, ap (λ rest. iv ∷ rest) e)
]

entry-IsRow :
    (parse : String → ℕ) (now : ℕ) (s : StudentRow) (own : List IntervalRow)
    → IsRow parse now s own (entry parse now s own)
entry-IsRow parse now s own = elim (newest-cases own) [
  | inl h ↦ (refl, refl, rw h (inl (refl, refl, refl, refl)), sum-present parse now own)
  | inr (older, newest, h) ↦
      let last : get_last? own ≡ some newest = rw h (get_last?-append older newest) in
      (
        refl,
        refl,
        inr (older, newest, h, rw last refl, rw last refl, rw last refl),
        sum-present parse now own,
      )
]

map-AreRows :
    (parse : String → ℕ) (now : ℕ) (intervals : List IntervalRow) (students : List StudentRow)
    → AreRows parse now intervals students
        (map (λ s. entry parse now s (filter (λ iv. str_eq iv.student_id s.id) intervals)) students)
map-AreRows parse now intervals [] = tt
map-AreRows parse now intervals (s ∷ students) = (
  entry-IsRow parse now s (filter (λ iv. str_eq iv.student_id s.id) intervals),
  map-AreRows parse now intervals students,
)

-- The roster has one row for each student, in the students' order, and no other. A row has the state, the start
-- and the origin of the last of that student's own intervals, is ABSENT and never seen without any,
-- and its time is the sum of the times from start to end of the student's present intervals.
pub derive_roster-AreRows :
    (parse : String → ℕ) (now : ℕ) (students : List StudentRow) (intervals : List IntervalRow)
    → AreRows parse now intervals students (derive_roster parse now students intervals)
derive_roster-AreRows parse now students intervals =
    rw (derive_roster-own parse now students intervals) (map-AreRows parse now intervals students)

-- Intervals that follow one another from `t` on, none beyond `now`.
abbrev pub Chain : (String → ℕ) → ℕ → ℕ → List IntervalRow → Type 0
Chain parse now t [] = t ≤ now
Chain parse now t (iv ∷ ivs) =
    (t ≤ parse iv.started_at)
    × (parse iv.started_at ≤ end_of parse now iv)
    × Chain parse now (end_of parse now iv) ivs

present_time-le :
    (parse : String → ℕ) (now : ℕ) (iv : IntervalRow)
    → present_time parse now iv ≤ end_of parse now iv - parse iv.started_at
present_time-le parse now iv = ground arith

-- For intervals that follow one another from `t` to `now`, the time present is at most the time
-- from `t` to `now`.
pub present_ms-bound :
    (parse : String → ℕ) (now t : ℕ) (s : StudentRow) (ivs : List IntervalRow)
    → Chain parse now t ivs
    → (entry parse now s ivs).present_ms + t ≤ now
present_ms-bound parse now t s [] h = omega arith
present_ms-bound parse now t s (iv ∷ ivs) (a, b, h) =
    omega (
      arith,
      present_time-le parse now iv,
      present_ms-bound parse now (end_of parse now iv) s ivs h,
    )

count_from_lem :
    (c : Counts) (rs : List RosterEntry)
    → let d = count_from c rs in
      (d.n_present ≡ c.n_present + length (filter (λ r. same_state r.state present) rs))
      × (d.n_unverified ≡ c.n_unverified + length (filter (λ r. same_state r.state unverified) rs))
      × (d.n_absent ≡ c.n_absent + length (filter (λ r. same_state r.state absent) rs))
      × (length rs + c.n_present + c.n_unverified + c.n_absent
          ≡ d.n_present + d.n_unverified + d.n_absent)
unfolding count_from
count_from_lem c [] = (omega arith, omega arith, omega arith, omega arith)
count_from_lem c (r ∷ rs) = ground (arith, count_from_lem (bump r.state c) rs)

abbrev zero_counts : Counts
zero_counts = record { n_present = 0; n_unverified = 0; n_absent = 0 }

-- The number on each filter is the number of rows that the filter lists, and the three states add up
-- to the whole roster.
pub filter_count_lem :
    (f : Filter) (roster : List RosterEntry)
    → (filter_count f roster ≡ length (filtered f roster))
      × (filter_count (only present) roster
            + filter_count (only unverified) roster
            + filter_count (only absent) roster
          ≡ length roster)
unfolding filter_count filtered
filter_count_lem all_states roster = (refl, omega (arith, count_from_lem zero_counts roster))
filter_count_lem (only present) roster = (
  omega (arith, count_from_lem zero_counts roster),
  omega (arith, count_from_lem zero_counts roster),
)
filter_count_lem (only unverified) roster = (
  omega (arith, count_from_lem zero_counts roster),
  omega (arith, count_from_lem zero_counts roster),
)
filter_count_lem (only absent) roster = (
  omega (arith, count_from_lem zero_counts roster),
  omega (arith, count_from_lem zero_counts roster),
)
