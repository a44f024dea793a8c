-- ===== src/Rpc/Printing.antt =====
-- Numbers that are printed in decimal and decoded again (pkg/loadtest/rpc.go, by Go's `strconv`).
use perpx_load_test.Base.{
  ℕ, zero, suc, ◌+◌, ◌/◌, ◌%◌, ◌^◌, ◌<◌, ◌≡◌, ◌≢◌, refl, ap, ◌∙◌, inl, inr, true, false, List, [],
  ◌∷◌, arith, ltb, ◌==◌, Bool-cases, ok, ◌>>=◌,
}
use perpx_load_test.Base.Int.{ℤ, pos, negsuc, InInt64, two63, two64}
use perpx_load_test.Base.Decimal.{digits_onto, decimal, decimal_int}
use perpx_load_test.Rpc.{is_digit, parse_uint, with_sign, parse_int}
use perpx_load_test.Rpc.Numbers.{value_of, AllDigits, parse_uint_iff}

-- What the digits of `n` before `tail` keep.
record IsWritten (n : ℕ) (tail s : List ℕ) : Type 0 where
  value : value_of 0 s ≡ value_of n tail
  digits : AllDigits s
  first : (c : ℕ) × ((rest : List ℕ) × ((s ≡ c ∷ rest) × (is_digit c ≡ true)))

one_digit : (n : ℕ) (tail : List ℕ) → AllDigits tail → n < 10 → IsWritten n tail ((n + b'0') ∷ tail)
one_digit n tail d h =
    let e : is_digit (n + b'0') ≡ true = ground arith in
    record {
      value = ap (λ k. value_of k tail) (omega arith);
      digits = (e, d);
      first = (n + b'0', (tail, (refl, e)));
    }

digits_onto-IsWritten :
    (rounds n : ℕ) (tail : List ℕ)
    → AllDigits tail
    → n < 10 ^ suc rounds
    → IsWritten n tail (digits_onto (suc rounds) n tail)
unfolding digits_onto
digits_onto-IsWritten zero n tail d h =
    let lt : n < 10 = omega arith in
    let e : ltb n 10 ≡ true = ground arith in rw e (one_digit n tail d lt)
digits_onto-IsWritten (suc rounds) n tail d h = elim (Bool-cases (ltb n 10)) [
  | inl e ↦ rw e (one_digit n tail d (ground arith))
  | inr e ↦
      let digit : is_digit (n % 10 + b'0') ≡ true = ground arith in
      let less : n / 10 < 10 ^ suc rounds = omega arith in
      let rest = digits_onto-IsWritten rounds (n / 10) ((n % 10 + b'0') ∷ tail) (digit, d) less in
      rw e (record {
        value = rest.value ∙ ap (λ k. value_of k tail) (omega arith);
        digits = rest.digits;
        first = rest.first;
      })
]

-- Any number below 2^64 is written with twenty digits at most.
decimal-IsWritten : (n : ℕ) → n < two64 → IsWritten n [] (decimal n)
unfolding decimal
decimal-IsWritten n h = digits_onto-IsWritten 19 n [] tt (omega arith)

parse_uint-decimal : (n : ℕ) → n < two64 → parse_uint (decimal n) ≡ ok n
parse_uint-decimal n h =
    let w = decimal-IsWritten n h in
    let (c, (rest, (e, d))) = w.first in
    let full : decimal n ≢ [] = cc in (parse_uint_iff (decimal n) n).1 (full, w.digits, w.value, h)

no_sign :
    (c : ℕ) (rest : List ℕ)
    → is_digit c ≡ true
    → parse_int (c ∷ rest) ≡ (parse_uint (c ∷ rest) >>= with_sign false)
unfolding parse_int
no_sign c rest d =
    let minus : (c == b'-') ≡ false = ground arith in
    let plus : (c == b'+') ≡ false = ground arith in rw (minus, plus) refl

-- What `%d` writes of an `int` is decoded to that `int`.
pub parse_int-decimal_int : (z : ℤ) → InInt64 z → parse_int (decimal_int z) ≡ ok z
unfolding decimal_int with_sign
parse_int-decimal_int (pos n) h =
    let w = decimal-IsWritten n (omega arith) in
    let (c, (rest, (e, d))) = w.first in
    let small : ltb n two63 ≡ true = ground arith in
    let plain : parse_int (decimal n) ≡ (parse_uint (decimal n) >>= with_sign false) =
      rw e (no_sign c rest d) in
    plain ∙ rw (parse_uint-decimal n (omega arith), small) refl
parse_int-decimal_int (negsuc n) h =
    let small : ltb n two63 ≡ true = ground arith in
    unfold parse_int in rw (parse_uint-decimal (suc n) (omega arith), small) refl
