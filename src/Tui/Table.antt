-- ===== src/Tui/Table.antt =====
-- The table that a tick draws (pkg/loadtest/tui.go).
use perpx_load_test.Base.{
  ℕ, ◌-◌, ◌≤◌, ◌≡◌, inl, inr, true, String, List, [], ◌∷◌, map, arith, Bool-cases, length,
  length-append, length-take, take, leb, codes, lookup, All,
}
use mathlib.Core.List.{Perm}
use mathlib.Core.List.Perm
use perpx_load_test.Base.Int.{ℤ, pos, add_int64, sub_int64}
use perpx_load_test.Config.{Config}
use perpx_load_test.Transactor.{per}
use perpx_load_test.Group.{sum_at}
use perpx_load_test.Tui.{
  Agg, agg_or_zero, total_of, leb_key, by_endpoint, Snapshot, Row, Frame, trim_for_table, time_step,
}
use perpx_load_test.Tui.Sums.{share_from}

pub trim_for_table-length : (s : List ℕ) (max : ℕ) → length (trim_for_table s max) ≤ max
unfolding trim_for_table
trim_for_table-length s max = elim (Bool-cases (leb (length s) max)) [
  | inl e ↦ rw e (ground arith)
  | inr e ↦ elim (Bool-cases (leb max 3)) [
    | inl q ↦ rw (e, q) (omega (arith, length-take max s))
    | inr q ↦
        let cut = length-append (take (max - 3) s) (b'.' ∷ b'.' ∷ b'.' ∷ []) in
        rw (e, q) (ground (arith, cut, length-take (max - 3) s))
  ]
]

-- The lines are in the order of their endpoints.
abbrev IsAfter : String × Agg → List (String × Agg) → Type 0
IsAfter e [] = Unit
IsAfter e (x ∷ xs) = leb_key e x ≡ true

abbrev pub IsSorted : List (String × Agg) → Type 0
IsSorted [] = Unit
IsSorted (e ∷ m) = IsAfter e m × IsSorted m

-- The sum of the column of transactions.
abbrev pub column_from : ℤ → List Row → ℤ
column_from acc [] = acc
column_from acc (r ∷ rows) = column_from (add_int64 acc r.row_txs) rows

-- The line of an endpoint with the counts `agg`, where the tick before has seen the counts in `before`.
abbrev pub line_since : ℤ → List (String × Agg) → String × Agg → Row
line_since dt before (ep, agg) =
    let old = agg_or_zero (lookup ep before) in
    record {
      name = trim_for_table (codes ep) 42;
      row_txs = agg.tx;
      row_tx_rate = per (sub_int64 agg.tx old.tx) dt;
      row_byte_rate = per (sub_int64 agg.bytes old.bytes) dt;
    }

-- What a frame shows at the time `now` of a snapshot, where the tick before has seen another one.
pub record IsDrawn (before now : ℤ) (s0 s : Snapshot) (f : Frame) : Type 0 where
  pub total : f.total_txs ≡ sum_at (pos 0) s.tx_counts
  pub column : column_from (pos 0) f.rows ≡ f.total_txs
  pub names_fit : All (λ r. length r.name ≤ 42) f.rows
  pub rate :
      f.inst_txs
      ≡ per
          (sub_int64 (sum_at (pos 0) s.tx_counts) (sum_at (pos 0) s0.tx_counts))
          (time_step now before)
  pub byte_rate :
      f.inst_bytes ≡ per (sub_int64 (total_of s).bytes (total_of s0).bytes) (time_step now before)
  pub in_order :
      (m : List (String × Agg)) × (f.rows
        ≡ map (line_since (time_step now before) (by_endpoint s0)) m)
      × IsSorted m
      × Perm m (by_endpoint s)
  pub shares :
      (ep : String)
      → (agg_or_zero (lookup ep (by_endpoint s))).tx ≡ share_from s.addrs ep (pos 0) s.tx_counts
