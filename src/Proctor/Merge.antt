-- ===== src/Proctor/Merge.antt =====
-- What `mergeFlags` keeps, and what a review changes.
use sensepro.Prelude.{
  ℕ, ◌≡◌, refl, ◌∙◌, String, Bool, false, Option, none, some, List, [], ◌∷◌, filter, find?, arith,
  ◌≤◌, if◌then◌else◌, str_eq, eq_iff, All, any, Bool-cases, inl, inr,
}
use sensepro.Prelude.Dict.{Dict, get, set, has, values, Distinct}
use sensepro.Prelude.Sort.{insert, sort, get-sort, Distinct-sort, Ascending, sort-Ascending}
use sensepro.Prelude.Upsert.{upsert_all, Distinct-upsert_all}
use sensepro.Sessions.Counts.{with_key, touch_all, get-upsert_all}
use sensepro.Http.{ok}
use sensepro.Proctor.{
  ProctorFlagRow, ReviewStatus, Panel, newest_first, by_id, merge_flags, review_end,
}

abbrev pub of_id : String → List ProctorFlagRow → List ProctorFlagRow
of_id k flags = filter (λ r. str_eq r.id k) flags

abbrev pub flag_of : String → List ProctorFlagRow → Option ProctorFlagRow
flag_of k flags = find? (λ r. str_eq r.id k) flags

-- The last of some rows, or `o` if there are none.
abbrev pub last_or : Option ProctorFlagRow → List ProctorFlagRow → Option ProctorFlagRow
last_or o [] = o
last_or o (r ∷ rs) = last_or (some r) rs

touch_all-last :
    (rs : List ProctorFlagRow) (o : Option ProctorFlagRow)
    → touch_all (λ r. r.id) (λ r _. r) rs o ≡ last_or o rs
unfolding touch_all
touch_all-last [] o = refl
touch_all-last (r ∷ rs) o = touch_all-last rs (some r)

get-by_id :
    (k : String) (current incoming : List ProctorFlagRow)
    → get k (by_id current incoming) ≡ last_or (last_or none (of_id k current)) (of_id k incoming)
unfolding by_id get
get-by_id k current incoming =
    rw
      (
        get-upsert_all (λ r. r.id) (λ r _. r) k incoming
            (upsert_all (λ r. r.id) (λ r _. r) current []),
        get-upsert_all (λ r. r.id) (λ r _. r) k current [],
        touch_all-last (with_key (λ r. r.id) k current) none,
      )
      (touch_all-last (with_key (λ r. r.id) k incoming) (last_or none (of_id k current)))

Distinct-by_id : (current incoming : List ProctorFlagRow) → Distinct (by_id current incoming)
unfolding by_id
Distinct-by_id current incoming =
    Distinct-upsert_all (λ r. r.id) _ incoming _ (Distinct-upsert_all (λ r. r.id) _ current [] tt)

-- Every entry stands under its row's id.
abbrev Keyed : Dict ProctorFlagRow → Type 0
Keyed m = All (λ e. e.1.id ≡ e.0) m

set-Keyed : (r : ProctorFlagRow) (m : Dict ProctorFlagRow) → Keyed m → Keyed (set r.id r m)
unfolding set
set-Keyed r [] h = (refl, tt)
set-Keyed r ((j, v) ∷ m) (p, h) = ground (arith, eq_iff j r.id, set-Keyed r m)

upsert_all-Keyed :
    (rs : List ProctorFlagRow) (m : Dict ProctorFlagRow)
    → Keyed m
    → Keyed (upsert_all (λ r. r.id) (λ r _. r) rs m)
unfolding upsert_all
upsert_all-Keyed [] m h = h
upsert_all-Keyed (r ∷ rs) m h = upsert_all-Keyed rs (set r.id r m) (set-Keyed r m h)

insert-Keyed :
    (le : String × ProctorFlagRow → String × ProctorFlagRow → Bool) (e : String × ProctorFlagRow)
    (m : Dict ProctorFlagRow)
    → e.1.id ≡ e.0
    → Keyed m
    → Keyed (insert le e m)
unfolding insert
insert-Keyed le e [] p h = (p, tt)
insert-Keyed le e (f ∷ m) p (q, h) = ground (arith, insert-Keyed le e m)

sort-Keyed :
    (le : String × ProctorFlagRow → String × ProctorFlagRow → Bool) (m : Dict ProctorFlagRow)
    → Keyed m
    → Keyed (sort le m)
unfolding sort
sort-Keyed le [] h = tt
sort-Keyed le (e ∷ m) (p, h) = insert-Keyed le e (sort le m) p (sort-Keyed le m h)

flag_of-values : (k : String) (m : Dict ProctorFlagRow) → Keyed m → flag_of k (values m) ≡ get k m
unfolding get
flag_of-values k [] h = refl
flag_of-values k ((j, v) ∷ m) (p, h) = rw p (ground (arith, flag_of-values k m h))

-- A merge shows for each id the last incoming row with it, or else the last current one, and no row
-- where there is neither.
pub flag_of-merge_flags :
    (parse : String → ℕ) (current incoming : List ProctorFlagRow) (k : String)
    → flag_of k (merge_flags parse current incoming)
      ≡ last_or (last_or none (of_id k current)) (of_id k incoming)
unfolding merge_flags by_id
flag_of-merge_flags parse current incoming k =
    let m = by_id current incoming in
    flag_of-values k (sort (newest_first parse) m) (
      sort-Keyed (newest_first parse) m
        (upsert_all-Keyed incoming _ (upsert_all-Keyed current [] tt)))
    ∙ get-sort (newest_first parse) k m (Distinct-by_id current incoming)
    ∙ get-by_id k current incoming

-- No two rows have one id.
abbrev pub DistinctFlags : List ProctorFlagRow → Type 0
DistinctFlags [] = Unit
DistinctFlags (r ∷ rs) = (any (λ q. str_eq q.id r.id) rs ≡ false) × DistinctFlags rs

none_of :
    (k : String) (rs : List ProctorFlagRow) (o : Option ProctorFlagRow)
    → any (λ q. str_eq q.id k) rs ≡ false
    → last_or o (of_id k rs) ≡ o
none_of k [] o h = refl
none_of k (r ∷ rs) o h = ground (arith, none_of k rs o)

last_or-flag_of :
    (k : String) (rs : List ProctorFlagRow)
    → DistinctFlags rs
    → last_or none (of_id k rs) ≡ flag_of k rs
last_or-flag_of k [] d = refl
last_or-flag_of k (r ∷ rs) (n, d) = elim (Bool-cases (str_eq r.id k)) [
  | inl same ↦
      let p : r.id ≡ k = (eq_iff r.id k).0 same in rw same (none_of k rs (some r) (rw p at n))
  | inr other ↦ rw other (last_or-flag_of k rs d)
]

-- On a queue of rows with different ids, a review that is saved sets the status of its flag, and
-- changes no other flag.
pub review_end-saved :
    (parse : String → ℕ) (flag : ProctorFlagRow) (status : ReviewStatus) (p : Panel) (k : String)
    → DistinctFlags p.flags
    → flag_of k (review_end parse flag status (ok tt) p).flags ≡ (
        if str_eq flag.id k
        then some (record flag { review_status = status })
        else flag_of k p.flags)
unfolding review_end
review_end-saved parse flag status p k d = ground (
  arith,
  flag_of-merge_flags parse p.flags (record flag { review_status = status } ∷ []) k,
  last_or-flag_of k p.flags d,
)

abbrev Earlier : (String → ℕ) → ProctorFlagRow → List ProctorFlagRow → Type 0
Earlier parse r [] = Unit
Earlier parse r (q ∷ rs) = parse q.flagged_at ≤ parse r.flagged_at

-- Each row was flagged no later than the one before it.
abbrev pub NewestFirst : (String → ℕ) → List ProctorFlagRow → Type 0
NewestFirst parse [] = Unit
NewestFirst parse (r ∷ rs) = Earlier parse r rs × NewestFirst parse rs

values-NewestFirst :
    (parse : String → ℕ) (m : Dict ProctorFlagRow)
    → Ascending (newest_first parse) m
    → NewestFirst parse (values m)
values-NewestFirst parse [] h = tt
values-NewestFirst parse (e ∷ []) h = (tt, tt)
values-NewestFirst parse (e ∷ f ∷ m) (l, h) = (ground arith, values-NewestFirst parse (f ∷ m) h)

any-values :
    (k : String) (m : Dict ProctorFlagRow) → Keyed m → any (λ q. str_eq q.id k) (values m) ≡ has k m
unfolding has
any-values k [] h = refl
any-values k ((j, v) ∷ m) (p, h) = rw p (ground (arith, any-values k m h))

values-DistinctFlags : (m : Dict ProctorFlagRow) → Keyed m → Distinct m → DistinctFlags (values m)
values-DistinctFlags [] h d = tt
values-DistinctFlags ((j, v) ∷ m) (p, h) (n, d) =
    (rw p (any-values j m h ∙ n), values-DistinctFlags m h d)

-- A merge shows the newest events first, and no id twice.
pub merge_flags-NewestFirst :
    (parse : String → ℕ) (current incoming : List ProctorFlagRow)
    → NewestFirst parse (merge_flags parse current incoming)
      × DistinctFlags (merge_flags parse current incoming)
unfolding merge_flags by_id
merge_flags-NewestFirst parse current incoming =
    let m = by_id current incoming in
    let le = newest_first parse in
    (
      values-NewestFirst parse (sort le m) (sort-Ascending le (λ a b h. ground arith) m),
      values-DistinctFlags (sort le m)
          (sort-Keyed le m (upsert_all-Keyed incoming _ (upsert_all-Keyed current [] tt)))
          (Distinct-sort le m (Distinct-by_id current incoming)),
    )
