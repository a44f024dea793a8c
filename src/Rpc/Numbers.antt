-- ===== src/Rpc/Numbers.antt =====
-- The decoding of numbers that are strings (pkg/loadtest/rpc.go, by Go's `strconv`).
use perpx_load_test.Base.{
  ℕ, ◌+◌, ◌-◌, ◌*◌, ◌≤◌, ◌<◌, ◌≡◌, ◌≢◌, ◌↔◌, refl, ap, ◌∙◌, Bool, true, false, List, [], ◌∷◌, arith,
  if◌then◌else◌, leb, All, Result, ok, err,
}
use perpx_load_test.Base.Int.{two64}
use perpx_load_test.Rpc.{RpcFailure, is_digit, bad_syntax, out_of_range, parse_digits, parse_uint}

-- The number that decimal digits stand for, after a number.
abbrev pub value_of : ℕ → List ℕ → ℕ
value_of n [] = n
value_of n (c ∷ s) = value_of (n * 10 + (c - b'0')) s

abbrev pub AllDigits : List ℕ → Type 0
AllDigits s = All (λ c. is_digit c ≡ true) s

value_of-le : (s : List ℕ) (n : ℕ) → n ≤ value_of n s
value_of-le [] n = omega arith
value_of-le (c ∷ s) n = omega (arith, value_of-le s (n * 10 + (c - b'0')))

digits_step :
    (digit over : Bool) (rest : Result RpcFailure ℕ) (v : ℕ)
    → (if digit then (if over then err out_of_range else rest) else err bad_syntax) ≡ ok v
    → (digit ≡ true) × (over ≡ false) × (rest ≡ ok v)
digits_step true true rest v h = cc
digits_step true false rest v h = (refl, refl, h)
digits_step false over rest v h = cc

fits : (n : ℕ) → leb two64 n ≡ false → n < two64
fits n h = ground arith

fits_not : (n : ℕ) → n < two64 → leb two64 n ≡ false
fits_not n h = ground arith

parse_digits-value :
    (s : List ℕ) (n v : ℕ)
    → n < two64
    → parse_digits n s ≡ ok v
    → AllDigits s × (value_of n s ≡ v) × (v < two64)
unfolding parse_digits
parse_digits-value [] n v h q = let e : n ≡ v = cc in (tt, e, omega arith)
parse_digits-value (c ∷ s) n v h q =
    let (d, over, rest) = digits_step (is_digit c) (leb two64 (n * 10 + (c - b'0'))) _ v q in
    let (ds, e, lt) = parse_digits-value s (n * 10 + (c - b'0')) v (fits _ over) rest in
    ((d, ds), e, lt)

value-parse_digits :
    (s : List ℕ) (n : ℕ) → AllDigits s → value_of n s < two64 → parse_digits n s ≡ ok (value_of n s)
unfolding parse_digits
value-parse_digits [] n d h = refl
value-parse_digits (c ∷ s) n (d, ds) h =
    let small : n * 10 + (c - b'0') < two64 = omega (arith, value_of-le s (n * 10 + (c - b'0'))) in
    rw (d, fits_not _ small) (value-parse_digits s (n * 10 + (c - b'0')) ds h)

-- `ParseUint` of a text gives a number just where the text is not empty, all of its bytes are digits
-- and the number that they stand for is below 2^64, and then it gives that number.
pub parse_uint_iff :
    (s : List ℕ) (v : ℕ)
    → (parse_uint s ≡ ok v) ↔ ((s ≢ []) × AllDigits s × (value_of 0 s ≡ v) × (v < two64))
unfolding parse_uint
parse_uint_iff [] v = ((λ h. cc), (λ h. absurd (h.0 refl)))
parse_uint_iff (c ∷ s) v = (
  (λ h. let (d, e, lt) = parse_digits-value (c ∷ s) 0 v (omega arith) h in ((λ q. cc), d, e, lt)),
  (λ h.
      let lt : value_of 0 (c ∷ s) < two64 = omega (arith, h.2, h.3) in
      value-parse_digits (c ∷ s) 0 h.1 lt ∙ ap ok h.2),
)
