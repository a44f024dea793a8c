-- ===== src/Samples.antt =====
-- The configurations that the examples of the other modules run on.
use perpx_load_test.Base.{false, [], ◌∷◌}
use perpx_load_test.Base.Int.{pos, negsuc}
use perpx_load_test.Config.{Config, CoordinatorConfig}

-- Ten transactions at four per second, of 40 bytes, to one endpoint.
abbrev pub ten_txs : Config
ten_txs = record {
  client_factory = "kvstore";
  connections = pos 1;
  time = pos 60;
  send_period = pos 1;
  rate = pos 4;
  size = pos 40;
  count = pos 10;
  broadcast_tx_method = "async";
  endpoints = "ws://localhost:26657/websocket" ∷ [];
  endpoint_select_method = "supplied";
  ui = "plain";
  expect_peers = pos 0;
  max_endpoints = pos 0;
  min_connectivity = pos 0;
  peer_connect_timeout = pos 600;
  stats_output_file = "";
  no_trap_interrupts = false;
}

-- The same without a limit on the number of transactions.
abbrev pub unlimited : Config
unlimited = record ten_txs { count = negsuc 0 }

abbrev pub two_workers : CoordinatorConfig
two_workers = record {
  bind_addr = "localhost:26670";
  expect_workers = pos 2;
  worker_connect_timeout = pos 180;
  shutdown_wait = pos 0;
  load_test_id = pos 0;
}
