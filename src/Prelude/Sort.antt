-- ===== src/Prelude/Sort.antt =====
-- `Array.prototype.sort` on the entries of a `Map`: stable insertion by a Boolean order.
use mathlib.Core.Path.{◌≡◌, refl, ◌∙◌}
use mathlib.Core.Logic.{inl, inr}
use mathlib.Core.Bool.{Bool, true, false, ◌||◌}
use mathlib.Core.Option.{some}
use mathlib.Core.List.{[], ◌∷◌}
use Prim.Native.String.{String}
use native.Mathlib.Omega.{arith}
use text.Mathlib.Text.{◌==◌ as str_eq}
use text.Mathlib.TextEquality.{eq_iff}
use sensepro.Prelude.Tests.{if◌then◌else◌, Bool-cases}
use sensepro.Prelude.Dict.{Dict, get, has, Distinct}

module _ {ℓ} {V : Type ℓ} (le : String × V → String × V → Bool) where
  unfoldable pub insert : String × V → Dict V → Dict V
  insert e [] = e ∷ []
  insert e (f ∷ m) = if le e f then e ∷ f ∷ m else f ∷ insert e m

  unfoldable pub sort : Dict V → Dict V
  unfolding insert
  sort [] = []
  sort (e ∷ m) = insert e (sort m)

  has-insert :
      (k : String) (e : String × V) (m : Dict V) → has k (insert e m) ≡ (str_eq e.0 k || has k m)
  unfolding insert has
  has-insert k e [] = refl
  has-insert k e (f ∷ m) = ground (arith, has-insert k e m)

  get-insert :
      (k : String) (e : String × V) (m : Dict V)
      → has e.0 m ≡ false
      → get k (insert e m) ≡ (if str_eq e.0 k then some e.1 else get k m)
  unfolding insert has get
  get-insert k e [] h = refl
  get-insert k e (f ∷ m) h =
      ground (arith, get-insert k e m, eq_iff e.0 k, eq_iff f.0 k, eq_iff f.0 e.0)

  Distinct-insert :
      (e : String × V) (m : Dict V) → has e.0 m ≡ false → Distinct m → Distinct (insert e m)
  unfolding insert has
  Distinct-insert e [] h d = (refl, tt)
  Distinct-insert e ((j, v) ∷ m) h (n, d) =
      ground (arith, Distinct-insert e m, has-insert j e m, eq_iff e.0 j, eq_iff j e.0)

  has-sort : (k : String) (m : Dict V) → has k (sort m) ≡ has k m
  unfolding sort has
  has-sort k [] = refl
  has-sort k (e ∷ m) = ground (arith, has-insert k e (sort m), has-sort k m)

  pub Distinct-sort : (m : Dict V) → Distinct m → Distinct (sort m)
  unfolding sort
  Distinct-sort [] d = tt
  Distinct-sort (e ∷ m) (n, d) = Distinct-insert e (sort m) (has-sort e.0 m ∙ n) (Distinct-sort m d)

  -- Sorting changes no entry.
  pub get-sort : (k : String) (m : Dict V) → Distinct m → get k (sort m) ≡ get k m
  unfolding sort get
  get-sort k [] d = refl
  get-sort k (e ∷ m) (n, d) =
      ground (arith, get-insert k e (sort m) (has-sort e.0 m ∙ n), get-sort k m d)

  abbrev Leads : String × V → Dict V → Type 0
  Leads e [] = Unit
  Leads e (f ∷ m) = le e f ≡ true

  -- Each entry comes before the next in the order.
  abbrev pub Ascending : Dict V → Type 0
  Ascending [] = Unit
  Ascending (e ∷ m) = Leads e m × Ascending m

  insert-Leads : (d e : String × V) (m : Dict V) → le d e ≡ true → Leads d m → Leads d (insert e m)
  unfolding insert
  insert-Leads d e [] h l = h
  insert-Leads d e (f ∷ m) h l = ground arith

  module _ (total : (a b : String × V) → le a b ≡ false → le b a ≡ true) where
    insert-Ascending : (e : String × V) (m : Dict V) → Ascending m → Ascending (insert e m)
    unfolding insert
    insert-Ascending e [] h = (tt, tt)
    insert-Ascending e (f ∷ m) (l, h) = elim (Bool-cases (le e f)) [
      | inl first ↦ rw first (first, (l, h))
      | inr later ↦ rw later (insert-Leads f e m (total e f later) l, insert-Ascending e m h)
    ]

    pub sort-Ascending : (m : Dict V) → Ascending (sort m)
    unfolding sort
    sort-Ascending [] = tt
    sort-Ascending (e ∷ m) = insert-Ascending e (sort m) (sort-Ascending m)
