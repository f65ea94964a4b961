-- ===== src/LiveRoster/Changes.antt =====
-- What a realtime change and a teacher's override do to the page.
use sensepro.Prelude.{
  ℕ, ◌≡◌, ◌≢◌, refl, ap, String, Bool, true, false, Option, none, some, List, [], ◌∷◌, ◌++◌, map,
  arith, str_eq, eq_iff, if◌then◌else◌, find?, Option-cases, Bool-cases, inl, inr,
}
use sensepro.Prelude.Dict.{Dict, has, set, values, Distinct}
use sensepro.Http.{Reply, replied}
use sensepro.LiveRoster.{
  AttendanceState, StudentRow, IntervalRow, TeacherPage, derive_roster, rederive, on_change,
  override_begin, override_end,
}

-- The intervals after a change: a known one is replaced in its place, a new one comes last.
abbrev pub merged : IntervalRow → Dict IntervalRow → List IntervalRow
merged iv m =
    if has iv.id m then map (λ e. if str_eq e.0 iv.id then iv else e.1) m else values m ++ iv ∷ []

unchanged :
    (k : String) (iv : IntervalRow) (m : Dict IntervalRow)
    → has k m ≡ false
    → map (λ e. if str_eq e.0 k then iv else e.1) m ≡ values m
unfolding has
unchanged k iv [] h = refl
unchanged k iv ((j, v) ∷ m) h = ground (arith, unchanged k iv m)

values-set :
    (iv : IntervalRow) (m : Dict IntervalRow) → Distinct m → values (set iv.id iv m) ≡ merged iv m
unfolding set has
values-set iv [] d = refl
values-set iv ((j, v) ∷ m) (n, d) =
    ground (arith, values-set iv m d, unchanged j iv m n, eq_iff j iv.id)

-- Where the intervals have different keys, a change from the realtime channel replaces a known one
-- in its place or is appended, and
-- the roster shown is derived from all intervals; a row with an empty id changes nothing.
pub on_change_lem :
    (parse : String → ℕ) (now : ℕ) (iv : IntervalRow) (p : TeacherPage)
    → Distinct p.intervals
    → (on_change parse now (some iv) p).roster ≡ (
        if str_eq iv.id ""
        then p.roster
        else derive_roster parse now p.students (merged iv p.intervals))
unfolding on_change rederive
on_change_lem parse now iv p d = elim (Bool-cases (str_eq iv.id "")) [
  | inl deleted ↦ rw deleted
  | inr row ↦ rw row (ap (derive_roster parse now p.students) (values-set iv p.intervals d))
]

abbrev pub writes : Option StudentRow → (String → Reply (Unit {0})) → Bool
writes none write = false
writes (some s) write = elim (write s.id) [ replied _ ↦ true | _ ↦ false ]

-- An override that is not saved, because the student is unknown or the write fails, leaves the page
-- as it was before the click.
pub override-undone :
    (reg_no : String) (state : AttendanceState) (write : String → Reply (Unit {0}))
    (p : TeacherPage)
    → writes (find? (λ s. str_eq s.reg_no reg_no) p.students) write ≡ false
    → override_end reg_no write p.roster (override_begin reg_no state p) ≡ p
unfolding override_end override_begin
override-undone reg_no state write p h =
    elim (Option-cases (find? (λ s. str_eq s.reg_no reg_no) p.students)) [
      | inl unknown ↦ ground arith
      | inr (s, known) ↦ ground arith
    ]

-- A change that arrives while an override waits that will not be saved is lost from view: the
-- intervals have it, and the roster of before the click is shown.
pub override-stale :
    (parse : String → ℕ) (now : ℕ) (iv : IntervalRow) (reg_no : String) (state : AttendanceState)
    (write : String → Reply (Unit {0})) (p : TeacherPage)
    → iv.id ≢ ""
    → writes (find? (λ s. str_eq s.reg_no reg_no) p.students) write ≡ false
    → let after =
        override_end reg_no write p.roster
          (on_change parse now (some iv) (override_begin reg_no state p)) in
      (after.roster ≡ p.roster) × (after.intervals ≡ set iv.id iv p.intervals)
unfolding override_end override_begin on_change rederive
override-stale parse now iv reg_no state write p ne h =
    elim (Option-cases (find? (λ s. str_eq s.reg_no reg_no) p.students)) [
      | inl unknown ↦ ground (arith, eq_iff iv.id "")
      | inr (s, known) ↦ ground (arith, eq_iff iv.id "")
    ]
