-- ===== src/Bank/Examples.antt =====
-- Runs of the clients of pkg/client.
use perpx_load_test.Base.{
  ℕ, ◌≡◌, refl, Bool, true, false, List, [], ◌∷◌, map, first_error, codes, ok, err, arith,
}
use perpx_load_test.Base.Int.{pos}
use perpx_load_test.Rpc.{parse_digits, parse_uint}
use perpx_load_test.Samples.{ten_txs}
use perpx_load_test.Seed.{get_env}
use perpx_load_test.Seed.Funding.{Get, unreachable, response, bench_addrs}
use perpx_load_test.Seed.Examples.{plain_sdk, steady_node, four_workers}
use perpx_load_test.Bank.{
  query_failed, Strategy, Client, without_path, to_http, rpc_endpoint, rest_endpoint, number_of,
  strategy_checks, unless_failed, new_strategy, env_strategy, taken_account, account_url,
  query_taken, ensure_queried, message_of, create_msg, tx_with, bytes_of, encoded, signed_with,
  make_tx, taken_tx, generate_tx, generate_txs,
}
use perpx_load_test.Bank.Sequence.{Sequenced, generate_txs-Sequenced}
use perpx_load_test.Bank.Accounts.{new_clients, new_clients-bench_addrs}

abbrev pub any_addr : List ℕ → Bool
any_addr a = true

-- The path stays after the conversion, and is removed by the caller.
path_test : to_http (codes "ws://node:36657/websocket") ≡ codes "http://node:36657/websocket"
unfolding to_http without_path
path_test = refl

rest_test :
    rest_endpoint (rpc_endpoint (codes "ws://127.0.0.1:36657/websocket"))
    ≡ codes "http://localhost:31317"
unfolding rest_endpoint rpc_endpoint to_http without_path
rest_test = refl

abbrev bank_client : Client
bank_client = record {
  config = ten_txs;
  strategy = record { chain_id = codes "c"; denom = codes "aperpx"; sink = codes "sink" };
  secret = codes "k";
  addr = codes "a";
  account_num = 0;
  sequence = 0;
  account_queried = false;
  rest_url = codes "http://localhost:31317";
}

abbrev replies : List (List ℕ → Get)
replies = (λ url. unreachable) ∷ (λ url. response 200 (codes "5")) ∷ (λ url. unreachable) ∷ []

replies_test :
    (generate_txs plain_sdk any_addr replies bank_client).1
    ≡ err query_failed ∷ ok (codes "k") ∷ ok (codes "k") ∷ []
unfolding generate_txs generate_tx ensure_queried taken_tx make_tx create_msg message_of signed_with
    tx_with encoded bytes_of query_taken taken_account number_of account_url parse_uint parse_digits
replies_test = refl

generate_txs-Sequenced_example :
    Sequenced plain_sdk any_addr bank_client replies
      (generate_txs plain_sdk any_addr replies bank_client).1
generate_txs-Sequenced_example = generate_txs-Sequenced plain_sdk any_addr bank_client replies refl

abbrev default_strategy : Strategy
default_strategy = record {
  chain_id = codes "localperpxprotocol";
  denom = codes "aperpx";
  sink = codes "perpx1kyfmupa8z5jtxgf5f4gt285sepeg6eqnzvs25m";
}

strategy_test :
    new_strategy plain_sdk any_addr (env_strategy plain_sdk any_addr (λ key. []))
    ≡ ok default_strategy
unfolding new_strategy env_strategy get_env strategy_checks unless_failed first_error
strategy_test = refl

new_clients-bench_addrs_example :
    (clients : List Client) × ((new_clients plain_sdk any_addr steady_node
          (λ key. [])
          ten_txs
          3
          (record { worker_counter = pos 0 })
        ≡ ok clients)
      × (bench_addrs plain_sdk steady_node four_workers (pos 3) ≡ ok (map (λ d. d.addr) clients)))
new_clients-bench_addrs_example =
    new_clients-bench_addrs plain_sdk any_addr steady_node (λ key. []) ten_txs four_workers
      default_strategy "ws://localhost:26657/websocket" [] 3 strategy_test refl (omega arith)
