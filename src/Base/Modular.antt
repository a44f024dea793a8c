-- ===== src/Base/Modular.antt =====
-- Sums on `int64`: the wrap-around makes them associative and commutative, so that the order in which
-- a map is visited does not matter.
use Prim.Native.Nat.{ℕ, ◌+◌, ◌%◌, ◌<◌}
use mathlib.Core.Path.{◌≡◌, refl, sym, ap, ◌∙◌}
use native.Mathlib.Omega.{arith}
use perpx_load_test.Base.Int.{
  ℤ, pos, negsuc, ◌+ℤ◌, two64, to_uint64, from_pattern, wrap64, add_int64,
}

to_uint64-lt : (z : ℤ) → to_uint64 z < two64
unfolding to_uint64
to_uint64-lt (pos n) = ground arith
to_uint64-lt (negsuc n) = ground arith

to_uint64-add : (a b : ℤ) → to_uint64 (a +ℤ b) ≡ (to_uint64 a + to_uint64 b) % two64
unfolding to_uint64 ◌+ℤ◌
to_uint64-add (pos a) (pos b) = ground arith
to_uint64-add (pos a) (negsuc b) = ground arith
to_uint64-add (negsuc a) (pos b) = ground arith
to_uint64-add (negsuc a) (negsuc b) = ground arith

to_uint64-from_pattern : (m : ℕ) → m < two64 → to_uint64 (from_pattern m) ≡ m
unfolding to_uint64 from_pattern
to_uint64-from_pattern m h = ground arith

add_int64-pattern : (a b : ℤ) → add_int64 a b ≡ from_pattern ((to_uint64 a + to_uint64 b) % two64)
unfolding add_int64 wrap64
add_int64-pattern a b = ap from_pattern (to_uint64-add a b)

to_uint64-add_int64 : (a b : ℤ) → to_uint64 (add_int64 a b) ≡ (to_uint64 a + to_uint64 b) % two64
to_uint64-add_int64 a b =
    ap to_uint64 (add_int64-pattern a b) ∙ to_uint64-from_pattern _ (ground arith)

mod_assoc : (a b c : ℕ) → ((a + b) % two64 + c) % two64 ≡ (a + (b + c) % two64) % two64
mod_assoc a b c = ground arith

pub add_int64_assoc : (a b c : ℤ) → add_int64 (add_int64 a b) c ≡ add_int64 a (add_int64 b c)
add_int64_assoc a b c =
    add_int64-pattern (add_int64 a b) c
    ∙ ap (λ k. from_pattern ((k + to_uint64 c) % two64)) (to_uint64-add_int64 a b)
    ∙ ap from_pattern (mod_assoc (to_uint64 a) (to_uint64 b) (to_uint64 c))
    ∙ ap (λ k. from_pattern ((to_uint64 a + k) % two64)) (sym (to_uint64-add_int64 b c))
    ∙ sym (add_int64-pattern a (add_int64 b c))

pub add_int64_comm : (a b : ℤ) → add_int64 a b ≡ add_int64 b a
add_int64_comm a b =
    let swap : to_uint64 a + to_uint64 b ≡ to_uint64 b + to_uint64 a = omega arith in
    add_int64-pattern a b ∙ ap (λ k. from_pattern (k % two64)) swap ∙ sym (add_int64-pattern b a)

mod_zero : (a b : ℕ) → (0 + (a + b) % two64) % two64 ≡ (a + b) % two64
mod_zero a b = ground arith

zero-pattern : to_uint64 (pos 0) ≡ 0
unfolding to_uint64
zero-pattern = refl

pub add_int64_zero : (a b : ℤ) → add_int64 (pos 0) (add_int64 a b) ≡ add_int64 a b
add_int64_zero a b =
    add_int64-pattern (pos 0) (add_int64 a b)
    ∙ ap (λ k. from_pattern ((to_uint64 (pos 0) + k) % two64)) (to_uint64-add_int64 a b)
    ∙ ap (λ z. from_pattern ((z + (to_uint64 a + to_uint64 b) % two64) % two64)) zero-pattern
    ∙ ap from_pattern (mod_zero (to_uint64 a) (to_uint64 b))
    ∙ sym (add_int64-pattern a b)

-- Two neighbours in a sum change places.
pub add_int64_swap : (a b c : ℤ) → add_int64 (add_int64 a b) c ≡ add_int64 (add_int64 a c) b
add_int64_swap a b c =
    add_int64_assoc a b c ∙ ap (add_int64 a) (add_int64_comm b c) ∙ sym (add_int64_assoc a c b)

mod_absorb : (a b : ℕ) → (a + (0 + b) % two64) % two64 ≡ (a + b) % two64
mod_absorb a b = ground arith

-- A sum that has begun at 0 is added as its summand.
pub add_int64-from_zero : (a b : ℤ) → add_int64 a (add_int64 (pos 0) b) ≡ add_int64 a b
add_int64-from_zero a b =
    add_int64-pattern a (add_int64 (pos 0) b)
    ∙ ap (λ k. from_pattern ((to_uint64 a + k) % two64)) (to_uint64-add_int64 (pos 0) b)
    ∙ ap (λ z. from_pattern ((to_uint64 a + (z + to_uint64 b) % two64) % two64)) zero-pattern
    ∙ ap from_pattern (mod_absorb (to_uint64 a) (to_uint64 b))
    ∙ sym (add_int64-pattern a b)
