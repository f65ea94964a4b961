-- ===== src/Password/Tests.antt =====
-- "Abc-1234", unit by unit, and without its capital.
use sensepro.Prelude.{ℕ, ◌≡◌, refl, true, false, List, [], ◌∷◌}
use sensepro.Password.{test, password_meets_rules}

abbrev without_capital : List ℕ
without_capital = 98 ∷ 99 ∷ 45 ∷ 49 ∷ 50 ∷ 51 ∷ 52 ∷ []

met_and_not :
    (password_meets_rules (65 ∷ without_capital) ≡ true)
    × (password_meets_rules (97 ∷ without_capital) ≡ false)
unfolding password_meets_rules test
met_and_not = (refl, refl)
