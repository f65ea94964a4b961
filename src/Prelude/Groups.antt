-- ===== src/Prelude/Groups.antt =====
-- What grouping the rows of a table keeps: each group is the rows of its key in their order, there
-- is a group exactly for the keys that occur, and no row is lost or counted twice.
use Prim.Native.Nat.{ℕ, ◌+◌}
use Prim.Native.String.{String}
use mathlib.Core.Path.{◌≡◌, sym, ap, ◌∙◌}
use mathlib.Core.Bool.{Bool, ◌||◌}
use mathlib.Core.Option.{some}
use mathlib.Core.List.{List, [], ◌∷◌, ◌++◌, append-nil, append_assoc}
use native.Mathlib.Omega.{arith}
use text.Mathlib.Text.{◌==◌ as str_eq}
use text.Mathlib.TextEquality.{eq_iff}
use sensepro.Prelude.Tests.{get_or_default}
use sensepro.Prelude.Lists.{filter, any, sum_by, sum_by-append, All, All-imp}
use sensepro.Prelude.Dict.{
  Dict, get, has, set, Distinct, get-set, has-set, has-eq-is_some-get, Distinct-set, group_from,
  group_by,
}

module _ {ℓ} {A : Type ℓ} where
  unfoldable pub sum_groups : (A → ℕ) → Dict (List A) → ℕ
  sum_groups f m = sum_by (λ e. sum_by f e.1) m

  sum_groups-set :
      (f : A → ℕ) (k : String) (v : List A) (m : Dict (List A))
      → sum_groups f (set k v m) + sum_by f (get_or_default (get k m) [])
        ≡ sum_groups f m + sum_by f v
  unfolding sum_groups set get
  sum_groups-set f k v [] = omega arith
  sum_groups-set f k v ((j, w) ∷ m) = ground (arith, sum_groups-set f k v m)

-- In a map with different keys every entry is what a lookup finds.
get-entries {ℓ} : {V : Type ℓ} (m : Dict V) → Distinct m → All (λ e. get e.0 m ≡ some e.1) m
unfolding get
get-entries [] _ = tt
get-entries ((j, v) ∷ m) (n, d) = (
  ground (arith, eq_iff j j),
  All-imp m (λ e h. ground (arith, eq_iff j e.0, has-eq-is_some-get j m)) (get-entries m d),
)

module _ {ℓ} {A : Type ℓ} (key : A → String) where
  abbrev pub in_group : String → A → Bool
  in_group k x = str_eq (key x) k

  group_from-get :
      (k : String) (m : Dict (List A)) (xs : List A)
      → get_or_default (get k (group_from key m xs)) []
        ≡ get_or_default (get k m) [] ++ filter (in_group k) xs
  unfolding group_from
  group_from-get k m [] = rw append-nil
  group_from-get k m (x ∷ xs) =
      let m' = set (key x) (get_or_default (get (key x) m) [] ++ x ∷ []) m in
      ground (
        arith,
        group_from-get k m' xs,
        get-set (key x) k (get_or_default (get (key x) m) [] ++ x ∷ []) m,
        eq_iff (key x) k,
        append_assoc (get_or_default (get k m) []) (x ∷ []) (filter (in_group k) xs),
      )

  -- The group of a key is the list of its rows, in the table's order.
  pub get-group_by :
      (k : String) (xs : List A)
      → get_or_default (get k (group_by key xs)) [] ≡ filter (in_group k) xs
  unfolding group_by get
  get-group_by k xs = group_from-get k [] xs

  has-group_from :
      (k : String) (m : Dict (List A)) (xs : List A)
      → has k (group_from key m xs) ≡ (has k m || any (in_group k) xs)
  unfolding group_from
  has-group_from k m [] = ground arith
  has-group_from k m (x ∷ xs) =
      let v = get_or_default (get (key x) m) [] ++ x ∷ [] in
      ground (arith, has-group_from k (set (key x) v m) xs, has-set (key x) k v m)

  -- There is a group for a key exactly if a row has it.
  pub has-group_by : (k : String) (xs : List A) → has k (group_by key xs) ≡ any (in_group k) xs
  unfolding group_by has
  has-group_by k xs = has-group_from k [] xs

  Distinct-group_from :
      (m : Dict (List A)) (xs : List A) → Distinct m → Distinct (group_from key m xs)
  unfolding group_from
  Distinct-group_from m [] d = d
  Distinct-group_from m (x ∷ xs) d =
      let v = get_or_default (get (key x) m) [] ++ x ∷ [] in
      Distinct-group_from (set (key x) v m) xs (Distinct-set (key x) v m d)

  pub Distinct-group_by : (xs : List A) → Distinct (group_by key xs)
  unfolding group_by
  Distinct-group_by xs = Distinct-group_from [] xs tt

  sum_groups-group_from :
      (f : A → ℕ) (m : Dict (List A)) (xs : List A)
      → sum_groups f (group_from key m xs) ≡ sum_groups f m + sum_by f xs
  unfolding group_from
  sum_groups-group_from f m [] = omega arith
  sum_groups-group_from f m (x ∷ xs) =
      let old = get_or_default (get (key x) m) [] in
      omega (
        arith,
        sum_groups-group_from f (set (key x) (old ++ x ∷ []) m) xs,
        sum_groups-set f (key x) (old ++ x ∷ []) m,
        sum_by-append f old (x ∷ []),
      )

  -- A sum over the rows is the sum over the groups.
  pub sum_groups-group_by : (f : A → ℕ) (xs : List A) → sum_groups f (group_by key xs) ≡ sum_by f xs
  unfolding group_by sum_groups
  sum_groups-group_by f xs = omega (arith, sum_groups-group_from f [] xs)

  -- Every entry of the grouping is a key with its rows.
  pub group_by-entries : (xs : List A) → All (λ e. e.1 ≡ filter (in_group e.0) xs) (group_by key xs)
  group_by-entries xs =
      All-imp (group_by key xs) (λ e h. sym (ap (λ o. get_or_default o []) h) ∙ get-group_by e.0 xs)
        (get-entries (group_by key xs) (Distinct-group_by xs))
