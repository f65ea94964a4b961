-- ===== src/Password.antt =====
-- lib/password-rules.ts: the rules for a password, which is a list of UTF-16 units as the regular expressions
-- see it.
mod Tests
use sensepro.Prelude.{
  ℕ, ◌+◌, ◌≡◌, ◌≤◌, refl, Bool, true, false, not, ◌&&◌, ◌||◌, List, [], ◌∷◌, ◌++◌, map, any, length,
  leb, arith, length-append,
}

pub data RuleId : Type 0 where
  len upper lower digit special : RuleId

abbrev in_range : ℕ → ℕ → ℕ → Bool
in_range low high c = leb low c && leb c high

abbrev is_upper : ℕ → Bool
is_upper c = in_range 65 90 c

abbrev is_lower : ℕ → Bool
is_lower c = in_range 97 122 c

abbrev is_digit : ℕ → Bool
is_digit c = in_range 48 57 c

abbrev is_special : ℕ → Bool
is_special c = not (is_upper c || is_lower c || is_digit c)

-- `test` of each rule.
unfoldable pub test : RuleId → List ℕ → Bool
test len v = leb 8 (length v)
test upper v = any is_upper v
test lower v = any is_lower v
test digit v = any is_digit v
test special v = any is_special v

abbrev pub password_rules : List RuleId
password_rules = len ∷ upper ∷ lower ∷ digit ∷ special ∷ []

abbrev every : List RuleId → List ℕ → Bool
every [] v = true
every (r ∷ rules) v = test r v && every rules v

unfoldable pub password_meets_rules : List ℕ → Bool
unfolding test
password_meets_rules v = every password_rules v

pub record Evaluated : Type 0 where
  pub id : RuleId
  pub met : Bool

unfoldable pub evaluate_password : List ℕ → List Evaluated
unfolding test
evaluate_password v = map (λ r. record { id = r; met = test r v }) password_rules

any-append : (p : ℕ → Bool) (v w : List ℕ) → any p (v ++ w) ≡ (any p v || any p w)
any-append p [] w = refl
any-append p (c ∷ v) w = ground (arith, any-append p v w)

-- A rule that is met stays met as the user types on.
test-append : (r : RuleId) (v w : List ℕ) → test r v ≡ true → test r (v ++ w) ≡ true
unfolding test
test-append len v w h = ground (arith, length-append v w, h)
test-append upper v w h = ground (arith, any-append is_upper v w, h)
test-append lower v w h = ground (arith, any-append is_lower v w, h)
test-append digit v w h = ground (arith, any-append is_digit v w, h)
test-append special v w h = ground (arith, any-append is_special v w, h)

abbrev pub all_met : List Evaluated → Bool
all_met [] = true
all_met (e ∷ es) = e.met && all_met es

-- A password meets the rules exactly where every rule that is shown is ticked; and typing on loses no tick.
pub password_meets_rules-append :
    (v w : List ℕ)
    → (password_meets_rules v ≡ all_met (evaluate_password v))
      × ((r : RuleId) → test r v ≡ true → test r (v ++ w) ≡ true)
      × (password_meets_rules v ≡ true → password_meets_rules (v ++ w) ≡ true)
unfolding password_meets_rules evaluate_password
password_meets_rules-append v w = (
  refl,
  λ r. test-append r v w,
  λ h. ground (
    arith,
    h,
    test-append len v w,
    test-append upper v w,
    test-append lower v w,
    test-append digit v w,
    test-append special v w,
  ),
)
