-- ===== src/Standalone/Examples.antt =====
-- A standalone test at concrete inputs.
use perpx_load_test.Base.{true, none, [], ◌∷◌, arith, refl}
use perpx_load_test.Base.Int.{pos}
use perpx_load_test.Config.{Config}
use perpx_load_test.Transactor.Turns.{turns}
use perpx_load_test.Transactor.Examples.{quick_turn}
use perpx_load_test.Coordinator.Running.{found}
use perpx_load_test.Standalone.{Surroundings, execute_standalone}
use perpx_load_test.Standalone.Totals.{StatsWithin, execute_standalone-StatsWithin}
use perpx_load_test.Samples.{ten_txs}

-- Two connections to each of the two peers that a crawl has found.
abbrev crawled : Config
crawled = record ten_txs {
  connections = pos 2;
  expect_peers = pos 1;
  stats_output_file = "out.csv";
}

abbrev calm : Surroundings
calm = record {
  peers = found ("ws://a/websocket" ∷ "ws://b/websocket" ∷ []);
  refused = λ i. none;
  closes = λ i. true;
  started = pos 1;
  written_at = pos 9;
  events = turns (quick_turn ∷ []) ∷ turns (quick_turn ∷ quick_turn ∷ []) ∷ [];
  file_error = none;
}

execute_standalone-StatsWithin_example : StatsWithin 40 (execute_standalone calm crawled).stats
execute_standalone-StatsWithin_example =
    execute_standalone-StatsWithin 10 4 calm crawled
      (record { limit = refl; rate = refl; limit_pos = omega arith; fits = omega arith })
      (omega arith)
