-- ===== src/Group/Adding.antt =====
-- How a group is filled (`Add` and `AddAll` of pkg/loadtest/transactor_group.go).
use perpx_load_test.Base.{
  ℕ, zero, suc, ◌+◌, ◌*◌, ◌≤◌, ◌<◌, ◌≡◌, refl, ap, subst, ◌∙◌, Bool, String, Option, none, some,
  List, [], ◌∷◌, ◌++◌, arith, length,
}
use perpx_load_test.Base.Int.{pos_part}
use perpx_load_test.Config.{Config}
use perpx_load_test.Protocol.{Failure}
use perpx_load_test.Transactor.{Transactor}
use perpx_load_test.Group.{
  Group, new_group, close_each, close_all, numbered, add, and_then, add_n, add_each, add_all,
}

-- New transactors with the numbers from `k` on.
abbrev pub fresh : Config → ℕ → ℕ → List Transactor
fresh cfg k zero = []
fresh cfg k (suc n) = numbered cfg k ∷ fresh cfg (suc k) n

fresh_snoc :
    (cfg : Config) (k n : ℕ) → fresh cfg k n ++ (numbered cfg (k + n) ∷ []) ≡ fresh cfg k (suc n)
fresh_snoc cfg k zero = ap (λ i. numbered cfg i ∷ []) (omega arith)
fresh_snoc cfg k (suc n) =
    ap (λ i. numbered cfg k ∷ (fresh cfg (suc k) n ++ (numbered cfg i ∷ []))) (omega arith)
    ∙ ap (λ r. numbered cfg k ∷ r) (fresh_snoc cfg (suc k) n)

pub length-fresh : (cfg : Config) (k n : ℕ) → length (fresh cfg k n) ≡ n
length-fresh cfg k zero = refl
length-fresh cfg k (suc n) = ap suc (length-fresh cfg (suc k) n)

-- The result of adding `n` transactors to an empty group: all of them, or fewer that are closed.
abbrev pub Fills : Config → (ℕ → Bool) → ℕ → Group × Option Failure → Type 0
Fills cfg closes n (g, none) = g.transactors ≡ fresh cfg 0 n
Fills cfg closes n (g, some e) =
    (m : ℕ) × (m < n) × (g.transactors ≡ close_each closes 0 (fresh cfg 0 m))

and_then-Fills :
    (cfg : Config) (closes : ℕ → Bool) (m n : ℕ) (r : Group × Option Failure)
    (k : Group → Group × Option Failure)
    → m ≤ n
    → Fills cfg closes m r
    → ((g : Group) → g.transactors ≡ fresh cfg 0 m → Fills cfg closes n (k g))
    → Fills cfg closes n (and_then r k)
unfolding and_then
and_then-Fills cfg closes m n (g, none) k h v f = f g v
and_then-Fills cfg closes m n (g, some e) k h (i, lt, q) f = (i, omega arith, q)

add-Fills :
    (o : Option Failure) (closes : ℕ → Bool) (cfg : Config) (g : Group) (j : ℕ)
    → g.transactors ≡ fresh cfg 0 j
    → Fills cfg closes (suc j) (add o closes cfg g)
unfolding add close_all
add-Fills (some e) closes cfg g j q = (j, omega arith, ap (close_each closes 0) q)
add-Fills none closes cfg g j q =
    ap (λ ts. ts ++ (numbered cfg (length ts) ∷ [])) q
    ∙ ap (λ i. fresh cfg 0 j ++ (numbered cfg i ∷ [])) (length-fresh cfg 0 j ∙ omega arith)
    ∙ fresh_snoc cfg 0 j

add_n-Fills :
    (refused : ℕ → Option Failure) (closes : ℕ → Bool) (cfg : Config) (n : ℕ) (g : Group) (j : ℕ)
    → g.transactors ≡ fresh cfg 0 j
    → Fills cfg closes (j + n) (add_n refused closes cfg n g)
unfolding add_n
add_n-Fills refused closes cfg zero g j q = q ∙ ap (fresh cfg 0) (omega arith)
add_n-Fills refused closes cfg (suc n) g j q =
    and_then-Fills cfg closes (suc j) (j + suc n) _ _ (omega arith)
      (add-Fills (refused (length g.transactors)) closes cfg g j q)
      (λ g' q'.
        subst (λ i. Fills cfg closes i (add_n refused closes cfg n g')) (omega arith)
          (add_n-Fills refused closes cfg n g' (suc j) q'))

add_each-Fills :
    (refused : ℕ → Option Failure) (closes : ℕ → Bool) (cfg : Config) (es : List String) (g : Group)
    (j : ℕ)
    → g.transactors ≡ fresh cfg 0 j
    → Fills cfg closes (j + length es * pos_part cfg.connections) (add_each refused closes cfg es g)
unfolding add_each
add_each-Fills refused closes cfg [] g j q = q ∙ ap (fresh cfg 0) (omega arith)
add_each-Fills refused closes cfg (endpoint ∷ es) g j q =
    let c = pos_part cfg.connections in
    and_then-Fills cfg closes (j + c) (j + suc (length es) * c) _ _ (grows j c (length es))
      (add_n-Fills refused closes cfg c g j q)
      (λ g' q'.
        subst (λ i. Fills cfg closes i (add_each refused closes cfg es g'))
          (regroup j c (length es)) (add_each-Fills refused closes cfg es g' (j + c) q'))
  where
    grows : (j c n : ℕ) → j + c ≤ j + suc n * c
    grows j c n = grind arith

    regroup : (j c n : ℕ) → (j + c) + n * c ≡ j + suc n * c
    regroup j c n = grind arith

-- Filling an empty group makes, where no connection is refused, one transactor for each connection to
-- each endpoint, with the numbers from 0 on; where one is refused, the error is returned and the
-- transactors made so far, fewer than these, have been closed.
pub add_all-Fills :
    (refused : ℕ → Option Failure) (closes : ℕ → Bool) (cfg : Config)
    → Fills cfg closes
        (length cfg.endpoints * pos_part cfg.connections)
        (add_all refused closes cfg new_group)
unfolding add_all
add_all-Fills refused closes cfg =
    subst (λ i. Fills cfg closes i (add_each refused closes cfg cfg.endpoints new_group))
      (omega arith)
      (add_each-Fills refused closes cfg cfg.endpoints new_group 0 (unfold new_group in refl))
