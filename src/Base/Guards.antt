-- ===== src/Base/Guards.antt =====
-- A run of early returns, `if test { return err }`, as the list of its tests and errors.
use mathlib.Core.Path.{◌≡◌, refl}
use mathlib.Core.Bool.{Bool, true, false}
use mathlib.Core.List.{List, [], ◌∷◌}
use mathlib.Core.Option.{Option, none, some}
use mathlib.Core.Logic.{◌↔◌}
use perpx_load_test.Base.Tests.{if◌then◌else◌}

module _ {ℓ} {E : Type ℓ} where
  -- The error of the first test that holds; `none` is nil.
  unfoldable pub first_error : List (Bool × E) → Option E
  first_error [] = none
  first_error ((b, e) ∷ rest) = if b then some e else first_error rest

  -- Every test has failed.
  abbrev pub Passed : List (Bool × E) → Type 0
  Passed [] = Unit
  Passed ((b, e) ∷ rest) = (b ≡ false) × Passed rest

  pub first_error-Passed : (l : List (Bool × E)) → (first_error l ≡ none) ↔ Passed l
  unfolding first_error
  first_error-Passed [] = ((λ _. tt), (λ _. refl))
  first_error-Passed ((true, e) ∷ rest) = ((λ h. cc), (λ h. cc (h.0)))
  first_error-Passed ((false, e) ∷ rest) =
      ((λ h. (refl, (first_error-Passed rest).0 h)), (λ h. (first_error-Passed rest).1 h.1))
