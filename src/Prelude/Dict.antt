-- ===== src/Prelude/Dict.antt =====
-- JavaScript's `Map` with text keys: an association list in insertion order. `set` writes in place
-- where the key is there and appends where it is not, as the language specifies.
use Prim.Native.Nat.{◌+◌}
use Prim.Native.String.{String}
use mathlib.Core.Path.{◌≡◌, refl}
use mathlib.Core.Bool.{Bool, false, ◌||◌}
use mathlib.Core.Option.{Option, none, some}
use mathlib.Core.List.{List, [], ◌∷◌, ◌++◌, map}
use native.Mathlib.Omega.{arith}
use text.Mathlib.Text.{◌==◌ as str_eq}
use text.Mathlib.TextEquality.{eq_iff}
use sensepro.Prelude.Tests.{if◌then◌else◌, get_or_default, is_some}
use sensepro.Prelude.Lists.{length}

abbrev pub Dict {ℓ} : Type ℓ → Type ℓ
Dict V = List (String × V)

module _ {ℓ} {V : Type ℓ} where
  unfoldable pub get : String → Dict V → Option V
  get k [] = none
  get k ((j, v) ∷ m) = if str_eq j k then some v else get k m

  unfoldable pub has : String → Dict V → Bool
  has k [] = false
  has k ((j, v) ∷ m) = str_eq j k || has k m

  unfoldable pub set : String → V → Dict V → Dict V
  set k v [] = (k, v) ∷ []
  set k v ((j, w) ∷ m) = if str_eq j k then (j, v) ∷ m else (j, w) ∷ set k v m

  abbrev pub values : Dict V → List V
  values m = map (λ e. e.1) m

  -- The keys are pairwise different, as in every `Map`.
  abbrev pub Distinct : Dict V → Type 0
  Distinct [] = Unit
  Distinct ((j, v) ∷ m) = (has j m ≡ false) × Distinct m

module _ {ℓ} {V : Type ℓ} where
  pub get-set :
      (k j : String) (v : V) (m : Dict V)
      → get j (set k v m) ≡ (if str_eq k j then some v else get j m)
  unfolding get set
  get-set k j v [] = refl
  get-set k j v ((i, w) ∷ m) = ground (arith, eq_iff k j, eq_iff i k, eq_iff i j, get-set k j v m)

  pub has-set : (k j : String) (v : V) (m : Dict V) → has j (set k v m) ≡ (str_eq k j || has j m)
  unfolding has set
  has-set k j v [] = refl
  has-set k j v ((i, w) ∷ m) = ground (arith, eq_iff k j, eq_iff i k, eq_iff i j, has-set k j v m)

  pub has-eq-is_some-get : (k : String) (m : Dict V) → has k m ≡ is_some (get k m)
  unfolding has get
  has-eq-is_some-get k [] = refl
  has-eq-is_some-get k ((i, w) ∷ m) = ground (arith, has-eq-is_some-get k m)

  pub Distinct-set : (k : String) (v : V) (m : Dict V) → Distinct m → Distinct (set k v m)
  unfolding set has
  Distinct-set k v [] d = (refl, tt)
  Distinct-set k v ((i, w) ∷ m) (n, d) =
      ground (arith, has-set k i v m, eq_iff i k, eq_iff k i, Distinct-set k v m d)

  pub length-set :
      (k : String) (v : V) (m : Dict V)
      → length (set k v m) ≡ (if has k m then length m else length m + 1)
  unfolding set has
  length-set k v [] = omega arith
  length-set k v ((i, w) ∷ m) = ground (arith, length-set k v m)

-- The rows of a table grouped by a text column, as
-- `for (row of rows) { list = m.get(key) ?? []; list.push(row); m.set(key, list) }`.
module _ {ℓ} {A : Type ℓ} (key : A → String) where
  unfoldable pub group_from : Dict (List A) → List A → Dict (List A)
  group_from m [] = m
  group_from m (x ∷ xs) =
      group_from (set (key x) (get_or_default (get (key x) m) [] ++ x ∷ []) m) xs

  unfoldable pub group_by : List A → Dict (List A)
  group_by xs = group_from [] xs
