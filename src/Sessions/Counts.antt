-- ===== src/Sessions/Counts.antt =====
-- What the counting loops compute for one key: the rows of that key, in order.
use sensepro.Prelude.{
  ℕ, ◌+◌, ◌≡◌, refl, String, Option, none, some, List, [], ◌∷◌, map, filter, length, str_eq, eq_iff,
  get_or_default, arith, inl, inr, Bool-cases,
}
use sensepro.Prelude.Dict.{Dict, get, set, get-set}
use sensepro.Prelude.Upsert.{add, add_all, upsert_all}
use sensepro.Sessions.{
  present_by_session, tally, roster_size_by_section, flag_count_by_session,
  pending_count_by_session, is_pending,
}
use sensepro.SessionTables.{PresenceRow, StudentSection, FlagRow}

abbrev pub with_key {ℓ} : {A : Type ℓ} → (A → String) → String → List A → List A
with_key key k xs = filter (λ x. str_eq (key x) k) xs

module _ {ℓ κ} {A : Type ℓ} {V : Type κ} (key : A → String) (touch : A → Option V → V) where
  unfoldable pub touch_all : List A → Option V → Option V
  touch_all [] o = o
  touch_all (x ∷ xs) o = touch_all xs (some (touch x o))

  -- The entry of a key is made by the items of that key alone.
  pub get-upsert_all :
      (k : String) (xs : List A) (m : Dict V)
      → get k (upsert_all key touch xs m) ≡ touch_all (with_key key k xs) (get k m)
  unfolding upsert_all touch_all
  get-upsert_all k [] m = refl
  get-upsert_all k (x ∷ xs) m = elim (Bool-cases (str_eq (key x) k)) [
    | inl same ↦
        let v = touch x (get (key x) m) in
        ground
          (arith, eq_iff (key x) k, get-set (key x) k v m, get-upsert_all k xs (set (key x) v m))
    | inr other ↦
        let v = touch x (get (key x) m) in
        ground (arith, get-set (key x) k v m, get-upsert_all k xs (set (key x) v m))
  ]

touch_all-count {ℓ} :
    {A : Type ℓ} (key : A → String) (xs : List A) (o : Option ℕ)
    → get_or_default (touch_all key (λ _ n. get_or_default n 0 + 1) xs o) 0
      ≡ get_or_default o 0 + length xs
unfolding touch_all
touch_all-count key [] o = omega arith
touch_all-count key (x ∷ xs) o =
    omega (arith, touch_all-count key xs (some (get_or_default o 0 + 1)))

pub get-tally {ℓ} :
    {A : Type ℓ} (key : A → String) (k : String) (xs : List A)
    → get_or_default (get k (tally key xs)) 0 ≡ length (with_key key k xs)
unfolding tally get
get-tally key k xs =
    rw (get-upsert_all key (λ _ n. get_or_default n 0 + 1) k xs [])
      (omega (arith, touch_all-count key (with_key key k xs) none))

touch_all-add :
    (xs : List PresenceRow) (o : Option (List String))
    → get_or_default
        (touch_all (λ r. r.session_id) (λ r set. add r.student_id (get_or_default set [])) xs o)
        []
      ≡ add_all (map (λ r. r.student_id) xs) (get_or_default o [])
unfolding touch_all add_all
touch_all-add [] o = refl
touch_all-add (x ∷ xs) o = touch_all-add xs (some (add x.student_id (get_or_default o [])))

pub get-present_by_session :
    (k : String) (table : List PresenceRow)
    → get_or_default (get k (present_by_session table)) []
      ≡ add_all (map (λ r. r.student_id) (with_key (λ r. r.session_id) k table)) []
unfolding present_by_session get
get-present_by_session k table =
    rw
      (get-upsert_all (λ r. r.session_id) (λ r set. add r.student_id (get_or_default set [])) k
        table [])
      (touch_all-add (with_key (λ r. r.session_id) k table) none)

pub get-roster_size :
    (k : String) (table : List StudentSection)
    → get_or_default (get k (roster_size_by_section table)) 0
      ≡ length (with_key (λ s. s.class_section) k table)
unfolding roster_size_by_section
get-roster_size k table = get-tally (λ s. s.class_section) k table

pub get-flag_count :
    (k : String) (table : List FlagRow)
    → get_or_default (get k (flag_count_by_session table)) 0
      ≡ length (with_key (λ f. f.session_id) k table)
unfolding flag_count_by_session
get-flag_count k table = get-tally (λ f. f.session_id) k table

pub get-pending_count :
    (k : String) (table : List FlagRow)
    → get_or_default (get k (pending_count_by_session table)) 0
      ≡ length (with_key (λ f. f.session_id) k (filter is_pending table))
unfolding pending_count_by_session
get-pending_count k table = get-tally (λ f. f.session_id) k (filter is_pending table)
