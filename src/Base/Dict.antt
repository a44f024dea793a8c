-- ===== src/Base/Dict.antt =====
-- A Go map as an association list with distinct keys. The order of the entries is the order in
-- which one `range` over the map happens to visit them.
use Prim.Native.Nat.{suc, ◌≤◌}
use mathlib.Core.Path.{◌≡◌, refl}
use mathlib.Core.List.{List, [], ◌∷◌}
use mathlib.Core.Option.{Option, none, some}
use native.Mathlib.Omega.{arith}
use Prim.Native.String.{String}
use text.Mathlib.Text.{◌==◌}
use text.Mathlib.TextEquality.{eq_iff}
use perpx_load_test.Base.Tests.{if◌then◌else◌}
use perpx_load_test.Base.Lists.{length}

module _ {ℓ} {V : Type ℓ} where
  -- delete(m, k)
  abbrev pub delete : String → List (String × V) → List (String × V)
  delete k [] = []
  delete k (e ∷ m) = let kept = delete k m in if e.0 == k then kept else e ∷ kept

  -- m[k] = v
  abbrev pub insert : String → V → List (String × V) → List (String × V)
  insert k v [] = (k, v) ∷ []
  insert k v (e ∷ m) = let later = insert k v m in if e.0 == k then (k, v) ∷ m else e ∷ later

  -- m[k], with the `ok` of the two-valued form.
  abbrev pub lookup : String → List (String × V) → Option V
  lookup k [] = none
  lookup k (e ∷ m) = let later = lookup k m in if e.0 == k then some e.1 else later

module _ {ℓ} {V : Type ℓ} where
  pub lookup-delete :
      (k x : String) (m : List (String × V))
      → lookup x (delete k m) ≡ (if k == x then none else lookup x m)
  lookup-delete k x [] = ground arith
  lookup-delete k x (e ∷ m) =
      ground (arith, lookup-delete k x m, eq_iff e.0 k, eq_iff e.0 x, eq_iff k x)

  pub lookup-insert :
      (k x : String) (v : V) (m : List (String × V))
      → lookup x (insert k v m) ≡ (if k == x then some v else lookup x m)
  lookup-insert k x v [] = refl
  lookup-insert k x v (e ∷ m) =
      ground (arith, lookup-insert k x v m, eq_iff e.0 k, eq_iff e.0 x, eq_iff k x)

  pub length-insert_new :
      (k : String) (v : V) (m : List (String × V))
      → lookup k m ≡ none
      → length (insert k v m) ≡ suc (length m)
  length-insert_new k v [] h = refl
  length-insert_new k v (e ∷ m) h = ground (arith, length-insert_new k v m)

  pub length-delete-le : (k : String) (m : List (String × V)) → length (delete k m) ≤ length m
  length-delete-le k [] = omega arith
  length-delete-le k (e ∷ m) = ground (arith, length-delete-le k m)
