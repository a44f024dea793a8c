-- ===== src/Base/Bytes.antt =====
-- Texts as lists of bytes, where the program looks inside them: what it uses of Go's `strings`.
use Prim.Native.Nat.{ℕ, zero, suc, ◌-◌}
use Prim.Native.Char.{code}
use Prim.Native.String.{String}
use mathlib.Core.Path.{◌≡◌, refl, ap}
use mathlib.Core.Bool.{Bool, true, false, ◌&&◌}
use mathlib.Core.List.{List, [], ◌∷◌, ◌++◌}
use native.Mathlib.Omega.{arith}
use perpx_load_test.Base.Tests.{◌==◌, leb, if◌then◌else◌}
use perpx_load_test.Base.Lists.{length, take, drop, length-append}

-- The bytes of an ASCII text.
abbrev pub codes : String → List ℕ
codes String.[] = []
codes (String.◌∷◌ c s) = code c ∷ codes s

-- Equal texts.
abbrev pub same : List ℕ → List ℕ → Bool
same [] [] = true
same [] (y ∷ ys) = false
same (x ∷ xs) [] = false
same (x ∷ xs) (y ∷ ys) = x == y && same xs ys

-- HasPrefix(s, t), with `t` first.
abbrev pub has_prefix : List ℕ → List ℕ → Bool
has_prefix [] s = true
has_prefix (x ∷ t) [] = false
has_prefix (x ∷ t) (y ∷ s) = x == y && has_prefix t s

-- Contains(s, t), with `t` first.
abbrev pub contains : List ℕ → List ℕ → Bool
contains t [] = has_prefix t []
contains t (y ∷ s) = let later = contains t s in if has_prefix t (y ∷ s) then true else later

-- Replace(s, t, u, 1) for a `t` that is not empty: the first occurrence.
abbrev pub replace_first : List ℕ → List ℕ → List ℕ → List ℕ
replace_first t u [] = []
replace_first t u (y ∷ s) =
    let later = replace_first t u s in
    if has_prefix t (y ∷ s) then u ++ drop (length t) (y ∷ s) else y ∷ later

-- Replace(s, t, u, -1) for a `t` that is not empty; `skip` bytes belong to the last occurrence.
abbrev pub replace_from : ℕ → List ℕ → List ℕ → List ℕ → List ℕ
replace_from skip t u [] = []
replace_from (suc skip) t u (y ∷ s) = replace_from skip t u s
replace_from zero t u (y ∷ s) =
    let after = replace_from (length t - 1) t u s in
    let later = replace_from zero t u s in if has_prefix t (y ∷ s) then u ++ after else y ∷ later

-- TrimPrefix(s, t), with `t` first.
abbrev pub trim_prefix : List ℕ → List ℕ → List ℕ
trim_prefix t s = if has_prefix t s then drop (length t) s else s

-- The last `n` bytes.
abbrev pub last_bytes : ℕ → List ℕ → List ℕ
last_bytes n s = drop (length s - n) s

-- TrimSuffix(s, t), with `t` first.
abbrev pub trim_suffix : List ℕ → List ℕ → List ℕ
trim_suffix t s =
    if leb (length t) (length s) && same (last_bytes (length t) s) t
    then take (length s - length t) s
    else s

abbrev pub unless_end : ℕ → ℕ → List ℕ → List ℕ
unless_end c x [] = if x == c then [] else x ∷ []
unless_end c x (y ∷ r) = x ∷ y ∷ r

-- TrimRight(s, c) for one byte `c`.
abbrev pub trim_right : ℕ → List ℕ → List ℕ
trim_right c [] = []
trim_right c (x ∷ s) = unless_end c x (trim_right c s)

pub same_refl : (s : List ℕ) → same s s ≡ true
same_refl [] = refl
same_refl (x ∷ s) = ground (arith, same_refl s)

pub same_eq : (s t : List ℕ) → same s t ≡ true → s ≡ t
same_eq [] [] h = refl
same_eq [] (y ∷ t) h = cc
same_eq (x ∷ s) [] h = cc
same_eq (x ∷ s) (y ∷ t) h = ground (arith, same_eq s t)

pub has_prefix-append : (t s : List ℕ) → has_prefix t (t ++ s) ≡ true
has_prefix-append [] s = refl
has_prefix-append (x ∷ t) s = ground (arith, has_prefix-append t s)

pub drop-append : (t s : List ℕ) → drop (length t) (t ++ s) ≡ s
drop-append [] s = refl
drop-append (x ∷ t) s = drop-append t s

pub take-append : (t s : List ℕ) → take (length t) (t ++ s) ≡ t
take-append [] s = refl
take-append (x ∷ t) s = ap (λ r. x ∷ r) (take-append t s)

pub trim_suffix-append : (t s : List ℕ) → trim_suffix t (s ++ t) ≡ s
trim_suffix-append t s =
    let n : length (s ++ t) - length t ≡ length s = omega (arith, length-append s t) in
    let h : leb (length t) (length (s ++ t)) ≡ true = ground (arith, length-append s t) in
    rw (h, n, drop-append s t, same_refl t) (take-append s t)
