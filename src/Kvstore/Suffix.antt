-- ===== src/Kvstore/Suffix.antt =====
-- How long a key suffix the kvstore client uses (pkg/loadtest/client_kvstore.go).
use perpx_load_test.Base.{
  ap, ◌∙◌, take, drop, ℕ, zero, suc, ◌+◌, ◌-◌, ◌≤◌, ◌<◌, ◌≡◌, refl, List, [], ◌∷◌, false, inl, inr,
  arith, ltb, length, get_or, Result, ok, err, Bool-cases,
}
use perpx_load_test.Config.{FactoryError, too_many_txs}
use perpx_load_test.Kvstore.{max_txs_by_suffix_len, suffix_loop, required_suffix_len}

-- Pascal's rule on a row with the entries to its left.
next_row : ℕ → List ℕ → List ℕ
next_row left [] = left ∷ []
next_row left (x ∷ xs) = (left + x) ∷ next_row x xs

row : ℕ → List ℕ
unfolding next_row
row zero = 1 ∷ []
row (suc n) = next_row 0 (row n)

-- The binomial coefficient: the `k`-th entry of the `n`-th row of Pascal's triangle.
unfoldable pub choose : ℕ → ℕ → ℕ
unfolding row
choose n k = get_or (row n) k 0

-- The row of 62 to the right of its first entry.
row_tail : List ℕ
unfolding row
row_tail = drop 1 (row 62)

table_tail : drop 1 max_txs_by_suffix_len ≡ take 15 row_tail
unfolding row_tail
table_tail = refl

get_or-take : (n i : ℕ) (l : List ℕ) → i < n → get_or (take n l) i 0 ≡ get_or l i 0
get_or-take zero i l h = absurd (omega arith)
get_or-take (suc n) i [] h = refl
get_or-take (suc n) zero (y ∷ l) h = refl
get_or-take (suc n) (suc i) (y ∷ l) h = get_or-take n i l (omega arith)

-- Below its first entry the table is the binomial coefficients of 62.
pub table-choose : (j : ℕ) → j < 15 → get_or max_txs_by_suffix_len (suc j) 0 ≡ choose 62 (suc j)
unfolding choose row_tail
table-choose j h = ap (λ l. get_or l j 0) table_tail ∙ get_or-take 15 j row_tail h

-- What the loop finds in the rest of a table, counted from the rest's start.
abbrev Found : ℕ → ℕ → List ℕ → Result FactoryError ℕ → Type 0
Found n l rest (ok k) =
    (i : ℕ) × (k ≡ suc (l + i))
    × (i < length rest)
    × (n < get_or rest i 0)
    × ((j : ℕ) → j < i → get_or rest j 0 ≤ n)
Found n l rest (err e) = (e ≡ too_many_txs n) × ((j : ℕ) → j < length rest → get_or rest j 0 ≤ n)

Found-skip :
    (n l x : ℕ) (rest : List ℕ) (r : Result FactoryError ℕ)
    → x ≤ n
    → Found n (l + 1) rest r
    → Found n l (x ∷ rest) r
Found-skip n l x rest (ok k) h (i, e, s, lt, below) = (suc i, omega arith, omega arith, lt, before)
  where
    before : (j : ℕ) → j < suc i → get_or (x ∷ rest) j 0 ≤ n
    before zero p = h
    before (suc j) p = below j (omega arith)
Found-skip n l x rest (err e) h (p, below) = (p, before)
  where
    before : (j : ℕ) → j < suc (length rest) → get_or (x ∷ rest) j 0 ≤ n
    before zero q = h
    before (suc j) q = below j (omega arith)

loop-Found :
    (n l : ℕ) (rest : List ℕ) → l + length rest ≤ 16 → Found n l rest (suffix_loop n l rest)
unfolding suffix_loop
loop-Found n l [] h = (refl, λ j p. absurd (omega arith))
loop-Found n l (x ∷ rest) h = elim (Bool-cases (ltb n x)) [
  | inl lt ↦
      rw lt (rw fits (0, omega arith, omega arith, ground arith, λ j p. absurd (omega arith)))
  | inr ge ↦
      rw ge (Found-skip n l x rest _ (ground arith) (loop-Found n (l + 1) rest (omega arith)))
]
  where
    fits : ltb 16 (l + 1) ≡ false
    fits = ground arith

-- The length leaves room for `n` distinct keys and one character to spare.
abbrev pub Suffices : ℕ → Result FactoryError ℕ → Type 0
Suffices n (ok k) =
    (k ≤ 16) × (n < choose 62 (k - 1)) × ((j : ℕ) → 0 < j → j < k - 1 → choose 62 j ≤ n)
Suffices n (err e) = (e ≡ too_many_txs n) × (choose 62 15 ≤ n)

Found-Suffices :
    (n : ℕ) (r : Result FactoryError ℕ) → Found n 0 max_txs_by_suffix_len r → Suffices n r
Found-Suffices n (ok k) (zero, e, s, lt, below) = absurd (omega arith)
Found-Suffices n (ok k) (suc i, e, s, lt, below) =
    (omega arith, rw (index, ← table-choose i (omega arith)) lt, before)
  where
    index : k - 1 ≡ suc i
    index = omega arith

    before : (j : ℕ) → 0 < j → j < k - 1 → choose 62 j ≤ n
    before zero p q = absurd (omega arith)
    before (suc j) p q = rw (← table-choose j (omega arith)) (below (suc j) (omega arith))
Found-Suffices n (err e) (p, below) =
    (p, rw (← table-choose 14 (omega arith)) (below 15 (omega arith)))

-- For every number `n` of transactions, the suffix length that `requiredKVStoreSuffixLen` returns
-- is at most 16 and one more than the least positive `r` with `n` below the binomial coefficient
-- "62 choose r"; and it returns the error exactly where 62 choose 15 is no greater than `n`.
pub required_suffix_len-Suffices : (n : ℕ) → Suffices n (required_suffix_len n)
unfolding required_suffix_len
required_suffix_len-Suffices n =
    Found-Suffices n _ (loop-Found n 0 max_txs_by_suffix_len (omega arith))
