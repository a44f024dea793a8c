-- ===== src/Config/Examples.antt =====
-- Validation at concrete configurations.
use perpx_load_test.Base.{
  ℕ, ◌*◌, ◌≤◌, ◌<◌, ◌≡◌, ◌≢◌, refl, ◌↔◌, Bool, ◌&&◌, String, none, some, [], ◌∷◌, arith, leb,
}
use perpx_load_test.Base.Int.{pos, two64}
use perpx_load_test.Config.{Registry, validate, max_txs_per_endpoint, bad_rate}
use perpx_load_test.Config.Sound.{IsRunnable, Accepts, validate_iff}
use perpx_load_test.Config.Capacity.{max_txs_exact}
use perpx_load_test.Kvstore.{
  kvstore_factory, validate_config as kvstore_config, required_suffix_len,
}
use perpx_load_test.Samples.{ten_txs, unlimited}

abbrev registry : Registry
registry = ("kvstore", kvstore_factory) ∷ []

abbrev ascii_lower : ℕ → Bool
ascii_lower c = leb b'a' c && leb c b'z'

abbrev ascii_digit : ℕ → Bool
ascii_digit c = leb b'0' c && leb c b'9'

ten_txs_accepted : validate registry ten_txs ≡ none
unfolding validate kvstore_config max_txs_per_endpoint required_suffix_len
ten_txs_accepted = refl

zero_rate_refused : validate registry (record ten_txs { rate = pos 0 }) ≡ some (bad_rate (pos 0))
unfolding validate kvstore_config max_txs_per_endpoint required_suffix_len
zero_rate_refused = refl

validate_iff_example :
    (validate registry ten_txs ≡ none)
    ↔ ((◌≢◌ {A = String} "kvstore" "") × Accepts registry ten_txs × IsRunnable ten_txs)
validate_iff_example = validate_iff registry ten_txs

max_txs_exact_example :
    (max_txs_per_endpoint unlimited ≤ 4 * 60)
    × ((max_txs_per_endpoint unlimited ≡ 4 * 60) ↔ (4 * 60 < two64))
max_txs_exact_example = max_txs_exact unlimited 4 60 refl refl refl (omega arith) (omega arith)
