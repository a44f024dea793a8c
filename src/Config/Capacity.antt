-- ===== src/Config/Capacity.antt =====
-- The estimate `MaxTxsPerEndpoint` of pkg/loadtest/config.go.
use native.Mathlib.Nat.{mod-eq_of_lt}
use perpx_load_test.Base.{ℕ, ◌*◌, ◌%◌, ◌≤◌, ◌<◌, ◌≡◌, ◌↔◌, arith}
use perpx_load_test.Base.Int.{pos, negsuc, two64}
use perpx_load_test.Config.{Config, max_txs_per_endpoint}

product_exact :
    (p : ℕ) → (p % two64 ≤ p) × ((p % two64 ≡ p → p < two64) × (p < two64 → p % two64 ≡ p))
product_exact p = omega arith

-- For a non-negative rate and time of 64 bits and no count limit, the estimate of transactions per
-- endpoint never exceeds rate times time, and is that product exactly when it is below 2 ^ 64.
pub max_txs_exact :
    (c : Config) (r t : ℕ)
    → c.rate ≡ pos r
    → c.time ≡ pos t
    → c.count ≡ negsuc 0
    → r < two64
    → t < two64
    → (max_txs_per_endpoint c ≤ r * t) × ((max_txs_per_endpoint c ≡ r * t) ↔ (r * t < two64))
unfolding max_txs_per_endpoint
max_txs_exact c r t er et ec hr ht =
    rw (ec, er, et, mod-eq_of_lt hr, mod-eq_of_lt ht) (product_exact (r * t))
