-- ===== src/Python/Enums.antt =====
-- The lookup of an `enum` member by its value.
use gtools.Prelude.{ℕ, List, [], ◌∷◌, ◌==◌, if◌then◌else◌}
use gtools.Python.Exec.{Result, ok, err, value_error}

unfoldable pub by_value {ℓ} : {A : Type ℓ} → (A → ℕ) → List A → ℕ → Result A
by_value value [] n = err value_error
by_value value (m ∷ ms) n = let rest = by_value value ms n in if value m == n then ok m else rest
