-- ===== src/Coordinator/Totals.antt =====
-- The totals of `logTestingProgress` of pkg/loadtest/coordinator.go.
use perpx_load_test.Base.{
  ℕ, ◌+◌, ◌<◌, ◌≡◌, refl, ap, ◌∙◌, inl, inr, not, ◌&&◌, String, str_eq, List, [], ◌∷◌, arith,
  Bool-cases,
}
use perpx_load_test.Base.Int.{ℤ, pos, leb_ℤ, add_int64, add_int64_pos, sub_int64, two63, pos_part}
use perpx_load_test.Coordinator.{Coordinator}
use perpx_load_test.Coordinator.Testing.{sum_values, write_stats, measured, log_testing_progress}

-- The sum of the values that are not negative.
abbrev pub total : List (String × ℤ) → ℕ
total [] = 0
total (e ∷ m) = pos_part e.1 + total m

abbrev pub IsCounts : List (String × ℤ) → Type 0
IsCounts [] = Unit {0}
IsCounts (e ∷ m) = (e.1 ≡ pos (pos_part e.1)) × IsCounts m

sum_values-from :
    (m : List (String × ℤ)) (acc : ℕ)
    → IsCounts m
    → acc + total m < two63
    → sum_values (pos acc) m ≡ pos (acc + total m)
unfolding sum_values
sum_values-from [] acc v h = ap pos (omega arith)
sum_values-from (e ∷ m) acc v h =
    ap (λ z. sum_values (add_int64 (pos acc) z) m) v.0
    ∙ ap (λ z. sum_values z m) (add_int64_pos acc (pos_part e.1) (omega arith))
    ∙ sum_values-from m (acc + pos_part e.1) v.1 (omega arith)
    ∙ ap pos (omega arith)

write_stats-total :
    (n : ℕ) (txs bytes elapsed : ℤ) (c : Coordinator)
    → (write_stats n txs bytes elapsed c).total_txs ≡ c.total_txs
unfolding write_stats
write_stats-total n txs bytes elapsed c =
    elim (Bool-cases
      (leb_ℤ c.coord_cfg.expect_workers (pos n) && not (str_eq c.cfg.stats_output_file ""))) [
        | inl e ↦ rw e refl
        | inr e ↦ rw e refl
      ]

-- The totals that the coordinator logs are the exact sums of counts that are not negative, where the
-- sum is below 2^63.
pub log_testing_progress-total :
    (now : ℤ) (n : ℕ) (c : Coordinator)
    → IsCounts c.total_txs_per_worker
    → total c.total_txs_per_worker < two63
    → (log_testing_progress now n c).total_txs ≡ pos (total c.total_txs_per_worker)
unfolding log_testing_progress measured
log_testing_progress-total now n c v h =
    write_stats-total n (measured now n c).total_txs (measured now n c).total_bytes
      (sub_int64 now c.start_time) (measured now n c)
    ∙ sum_values-from c.total_txs_per_worker 0 v (omega arith)
    ∙ ap pos (omega arith)
