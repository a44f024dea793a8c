-- ===== src/Group/Examples.antt =====
-- A group at concrete inputs.
use perpx_load_test.Base.{ℕ, zero, suc, Bool, true, Option, none, some, [], ◌∷◌}
use perpx_load_test.Base.Int.{pos}
use perpx_load_test.Config.{Config}
use perpx_load_test.Protocol.{Failure, socket_error}
use perpx_load_test.Group.{Group, new_group, numbered}
use perpx_load_test.Group.Waiting.{IsFinal, wait-IsFinal}
use perpx_load_test.Samples.{ten_txs}

abbrev two_connections : Config
two_connections = record ten_txs { connections = pos 2 }

-- The second connection is refused.
abbrev second_refused : ℕ → Option Failure
second_refused zero = none
second_refused (suc i) = some (socket_error 7)

abbrev all_close : ℕ → Bool
all_close i = true

abbrev busy : Group
busy = record new_group {
  transactors =
      record (numbered ten_txs 0) { tx_count = pos 10; tx_bytes = pos 400 }
      ∷ record (numbered ten_txs 1) { tx_count = pos 4; tx_bytes = pos 160 }
      ∷ [];
  tx_counts = (0, pos 3) ∷ [];
}

wait-IsFinal_example : IsFinal busy
wait-IsFinal_example = wait-IsFinal busy
