-- ===== src/Prelude/Upsert.antt =====
-- Loops over a `Map` that rewrite all entries, or update or insert the entry of each item, and sets
-- of texts.
use mathlib.Core.Path.{◌≡◌, refl, ◌∙◌}
use mathlib.Core.Logic.{inl, inr}
use mathlib.Core.Bool.{Bool, true, false, ◌||◌}
use mathlib.Core.Option.{Option, none, some}
use mathlib.Core.List.{List, [], ◌∷◌, ◌++◌}
use Prim.Native.String.{String}
use native.Mathlib.Omega.{arith}
use text.Mathlib.Text.{◌==◌ as str_eq}
use text.Mathlib.TextEquality.{eq_iff}
use sensepro.Prelude.Tests.{if◌then◌else◌, Bool-cases}
use sensepro.Prelude.Lists.{any}
use sensepro.Prelude.Dict.{Dict, get, has, set, Distinct, get-set, has-set, Distinct-set}

abbrev pub contains : List String → String → Bool
contains xs k = any (λ x. str_eq x k) xs

-- `Set.add`.
abbrev pub add : String → List String → List String
add k xs = if contains xs k then xs else xs ++ k ∷ []

-- `new Set([...xs, ...ks])`.
unfoldable pub add_all : List String → List String → List String
add_all [] xs = xs
add_all (k ∷ ks) xs = add_all ks (add k xs)

any-append :
    (k : String) (xs ys : List String) → contains (xs ++ ys) k ≡ (contains xs k || contains ys k)
any-append k [] ys = refl
any-append k (x ∷ xs) ys = ground (arith, any-append k xs ys)

pub contains-add :
    (j k : String) (xs : List String) → contains (add j xs) k ≡ (contains xs k || str_eq j k)
contains-add j k xs = ground (arith, any-append k xs (j ∷ []), eq_iff j k)

pub contains-add_all :
    (k : String) (ks xs : List String)
    → contains (add_all ks xs) k ≡ (contains xs k || contains ks k)
unfolding add_all
contains-add_all k [] xs = ground arith
contains-add_all k (j ∷ ks) xs =
    ground (arith, contains-add_all k ks (add j xs), contains-add j k xs)

module _ {ℓ} {V : Type ℓ} (f : String → V → V) where
  unfoldable pub map_values : Dict V → Dict V
  map_values [] = []
  map_values ((k, v) ∷ m) = (k, f k v) ∷ map_values m

  abbrev mapped : String → Option V → Option V
  mapped k none = none
  mapped k (some v) = some (f k v)

  pub get-map_values : (k : String) (m : Dict V) → get k (map_values m) ≡ mapped k (get k m)
  unfolding map_values get
  get-map_values k [] = refl
  get-map_values k ((j, v) ∷ m) = ground (arith, eq_iff j k, get-map_values k m)

  pub has-map_values : (k : String) (m : Dict V) → has k (map_values m) ≡ has k m
  unfolding map_values has
  has-map_values k [] = refl
  has-map_values k ((j, v) ∷ m) = ground (arith, has-map_values k m)

  pub Distinct-map_values : (m : Dict V) → Distinct m → Distinct (map_values m)
  unfolding map_values
  Distinct-map_values [] d = tt
  Distinct-map_values ((j, v) ∷ m) (n, d) =
      ground (arith, has-map_values j m, Distinct-map_values m d)

module _ {ℓ κ} {A : Type ℓ} {V : Type κ} (key : A → String) (touch : A → Option V → V) where
  -- `for (x of xs) m.set(key(x), touch(x, m.get(key(x))))`.
  unfoldable pub upsert_all : List A → Dict V → Dict V
  upsert_all [] m = m
  upsert_all (x ∷ xs) m = upsert_all xs (set (key x) (touch x (get (key x) m)) m)

  abbrev keyed : String → A → Bool
  keyed k x = str_eq (key x) k

  pub has-upsert_all :
      (k : String) (xs : List A) (m : Dict V)
      → has k (upsert_all xs m) ≡ (has k m || any (keyed k) xs)
  unfolding upsert_all
  has-upsert_all k [] m = ground arith
  has-upsert_all k (x ∷ xs) m =
      let v = touch x (get (key x) m) in
      ground (arith, has-upsert_all k xs (set (key x) v m), has-set (key x) k v m)

  pub Distinct-upsert_all : (xs : List A) (m : Dict V) → Distinct m → Distinct (upsert_all xs m)
  unfolding upsert_all
  Distinct-upsert_all [] m d = d
  Distinct-upsert_all (x ∷ xs) m d =
      let v = touch x (get (key x) m) in
      Distinct-upsert_all xs (set (key x) v m) (Distinct-set (key x) v m d)

  -- An entry of no item stays as it is.
  pub upsert_all-other :
      (k : String) (xs : List A) (m : Dict V)
      → any (keyed k) xs ≡ false
      → get k (upsert_all xs m) ≡ get k m
  unfolding upsert_all
  upsert_all-other k [] m h = refl
  upsert_all-other k (x ∷ xs) m h =
      let v = touch x (get (key x) m) in
      ground (arith, upsert_all-other k xs (set (key x) v m), get-set (key x) k v m)

  -- What an update keeps of an entry, the loop keeps.
  pub upsert_all-keeps {μ} :
      {T : Type μ} (proj : V → T)
      → ((x : A) (v : V) → proj (touch x (some v)) ≡ proj v)
      → (k : String) (v : V) (xs : List A) (m : Dict V) → get k m ≡ some v
      → (w : V) × (get k (upsert_all xs m) ≡ some w) × (proj w ≡ proj v)
  unfolding upsert_all
  upsert_all-keeps proj keep k v [] m h = (v, h, refl)
  upsert_all-keeps proj keep k v (x ∷ xs) m h = elim (Bool-cases (str_eq (key x) k)) [
    | inl same ↦
        let here : get (key x) m ≡ some v = rw ((eq_iff (key x) k).0 same) h in
        let w = touch x (get (key x) m) in
        let (u, found, p) =
          upsert_all-keeps proj keep k w xs (set (key x) w m)
            (ground (arith, get-set (key x) k w m)) in
        (u, found, p ∙ rw here (keep x v))
    | inr other ↦
        let w = touch x (get (key x) m) in
        upsert_all-keeps proj keep k v xs (set (key x) w m) (ground (arith, get-set (key x) k w m))
  ]

  -- What every update establishes holds of each item's entry after the loop.
  pub upsert_all-makes {μ} :
      (P : V → Type μ)
      → ((x : A) (o : Option V) → P (touch x o))
      → (k : String) (xs : List A) (m : Dict V) → any (keyed k) xs ≡ true
      → (w : V) × (get k (upsert_all xs m) ≡ some w) × P w
  unfolding upsert_all
  upsert_all-makes P makes k [] m h = cc
  upsert_all-makes P makes k (x ∷ xs) m h =
      let w = touch x (get (key x) m) in
      elim (Bool-cases (any (keyed k) xs)) [
        | inl later ↦ upsert_all-makes P makes k xs (set (key x) w m) later
        | inr last ↦ (
          w,
          ground (arith, upsert_all-other k xs (set (key x) w m) last, get-set (key x) k w m),
          makes x (get (key x) m),
        )
      ]
