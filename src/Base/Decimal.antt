-- ===== src/Base/Decimal.antt =====
-- Numbers in decimal: what the verb %d of Go's `fmt` writes for an `int` of 64 bits.
use Prim.Native.Nat.{ℕ, zero, suc, ◌+◌, ◌/◌, ◌%◌}
use mathlib.Core.List.{List, [], ◌∷◌}
use perpx_load_test.Base.Tests.{ltb, if◌then◌else◌}
use perpx_load_test.Base.Int.{ℤ, pos, negsuc}

-- The digits of a number before those of `tail`; every round writes one.
unfoldable pub digits_onto : ℕ → ℕ → List ℕ → List ℕ
digits_onto zero n tail = tail
digits_onto (suc rounds) n tail =
    let more = digits_onto rounds (n / 10) ((n % 10 + b'0') ∷ tail) in
    if ltb n 10 then (n + b'0') ∷ tail else more

-- Twenty digits hold every number below 2^64.
unfoldable pub decimal : ℕ → List ℕ
unfolding digits_onto
decimal n = digits_onto 20 n []

unfoldable pub decimal_int : ℤ → List ℕ
unfolding decimal
decimal_int (pos n) = decimal n
decimal_int (negsuc n) = b'-' ∷ decimal (suc n)
