-- ===== src/Kvstore/Examples.antt =====
-- The kvstore client at concrete configurations.
use perpx_load_test.Base.{ℕ, zero, suc, ◌≡◌, refl, ap, length, some, List, [], ◌∷◌, ok, err, arith}
use perpx_load_test.Base.Int.{pos, pos_part}
use perpx_load_test.Config.{too_many_txs, max_txs_per_endpoint}
use perpx_load_test.Kvstore.{
  Client, Read, read, required_suffix_len, validate_config, new_client, generate_tx,
}
use perpx_load_test.Kvstore.Size.{IsFull, IsKeyValueTx, generate_tx-IsKeyValueTx}
use perpx_load_test.Samples.{ten_txs}

-- A source that gives the byte 7 for ever.
abbrev sevens : ℕ → List ℕ
sevens zero = []
sevens (suc n) = 7 ∷ sevens n

abbrev draw : ℕ → Read
draw n = read n (sevens n)

length-sevens : (n : ℕ) → length (sevens n) ≡ n
length-sevens zero = refl
length-sevens (suc n) = ap suc (length-sevens n)

draw-IsFull : (n : ℕ) → IsFull (pos n) (draw n)
draw-IsFull n = (refl, ap pos (length-sevens n))

ten_million : required_suffix_len 10_000_000 ≡ ok 7
unfolding required_suffix_len
ten_million = refl

past_the_table : required_suffix_len 93052749919920 ≡ err (too_many_txs 93052749919920)
unfolding required_suffix_len
past_the_table = refl

generate_tx-IsKeyValueTx_example :
    (cl : Client) × (tx : List ℕ) × (new_client ten_txs (draw 5) ≡ some (ok cl))
    × (generate_tx cl (draw (pos_part cl.key_suffix_len)) (draw (pos_part cl.value_len)) ≡ some tx)
    × IsKeyValueTx (pos 40) tx
unfolding validate_config max_txs_per_endpoint required_suffix_len
generate_tx-IsKeyValueTx_example =
    generate_tx-IsKeyValueTx ten_txs (draw 5) draw draw (omega arith) refl (draw-IsFull 5)
      draw-IsFull draw-IsFull
