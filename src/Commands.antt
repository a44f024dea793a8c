-- ===== src/Commands.antt =====
-- pkg/loadtest/cli.go and cmd/perpx-load-test/main.go: the factories that the program registers, the
-- defaults of the flags, and the exit codes of its commands. That the flags are read is the cobra
-- library's; the configurations come with the command that it has chosen.
pub mod Startup
pub mod Exits
pub mod Examples
use perpx_load_test.Base.{
  ℕ, Bool, true, false, not, ◌&&◌, String, str_eq, Option, none, some, List, [], ◌∷◌, ◌++◌, codes,
  if◌then◌else◌, Result, ok, err, same,
}
use perpx_load_test.Base.Int.{ℤ, pos, negsuc}
use perpx_load_test.Config.{
  Config, ConfigError, ClientFactory, Registry, CoordinatorConfig, WorkerConfig,
  register_client_factory, validate, validate_coordinator, validate_worker,
}
use perpx_load_test.Kvstore.{kvstore_factory}
use perpx_load_test.Bank.{validate_config}
use perpx_load_test.Protocol.{Failure}
use perpx_load_test.Coordinator.{WaitEvent, Progress, going, done, new_coordinator}
use perpx_load_test.Coordinator.Testing.{TestEvent}
use perpx_load_test.Coordinator.Running.{Peers}
use perpx_load_test.Standalone.{
  Surroundings, Ended, complete, not_started, load_failed, not_written, execute_standalone,
}
use perpx_load_test.Worker.{Worker, new_worker}

-- The flags' defaults in `buildCLI`.
unfoldable pub default_config : String → Config
default_config factory = record {
  client_factory = factory;
  connections = pos 1;
  time = pos 60;
  send_period = pos 1;
  rate = pos 1000;
  size = pos 250;
  count = negsuc 0;
  broadcast_tx_method = "async";
  endpoints = [];
  endpoint_select_method = "supplied";
  ui = "plain";
  expect_peers = pos 0;
  max_endpoints = pos 0;
  min_connectivity = pos 0;
  peer_connect_timeout = pos 600;
  stats_output_file = "";
  no_trap_interrupts = false;
}

unfoldable pub default_coordinator : CoordinatorConfig
default_coordinator = record {
  bind_addr = "localhost:26670";
  expect_workers = pos 2;
  worker_connect_timeout = pos 180;
  shutdown_wait = pos 0;
  load_test_id = pos 0;
}

unfoldable pub default_worker : WorkerConfig
default_worker = record {
  id = "";
  coord_addr = "ws://localhost:26670";
  coord_connect_timeout = pos 180;
}

-- `NewPerpxBankClientFactory`, as validation sees it.
abbrev pub bank_factory : ClientFactory
bank_factory = record { validate_config = validate_config }

-- The `init` of the key-value client, before `main`; a name that is taken panics.
unfoldable pub init_registry : Option Registry
unfolding register_client_factory
init_registry = register_client_factory "kvstore" kvstore_factory []

-- What `main` does: it seeds with the arguments that follow, runs the commands, or panics.
pub data Start : Type 0 where
  seeding : List (List ℕ) → Start
  commands : Registry → Start
  panics : Start

unfoldable pub registered : Option Registry → Start
registered none = panics
registered (some reg) = commands reg

unfoldable pub with_bank : Option Registry → Start
unfolding register_client_factory registered
with_bank none = panics
with_bank (some reg) = registered (register_client_factory "perpx-bank" bank_factory reg)

-- `main`, of the arguments after the program's name.
unfoldable pub main : List (List ℕ) → Start
unfolding with_bank init_registry
main [] = with_bank init_registry
main (a ∷ args) = if same a (codes "seed") then seeding args else with_bank init_registry

-- The text of the command `version`.
unfoldable pub version_text : List ℕ → List ℕ
version_text [] = codes "cometbft-load-test v0.3.0"
version_text (c ∷ commit_id) = codes "cometbft-load-test v0.3.0" ++ codes "-" ++ (c ∷ commit_id)

unfoldable pub ended_code : Ended → ℕ
ended_code complete = 0
ended_code (not_started e) = 1
ended_code (load_failed e) = 1
ended_code (not_written e) = 1

-- The exit code of a command that runs, and with what result, only where no check has failed.
unfoldable pub checked_code {ℓ} : {E : Type ℓ} → Option E → ℕ → ℕ
checked_code none code = code
checked_code (some e) code = 1

-- The root command.
unfoldable pub root_command : Registry → Surroundings → Config → ℕ
unfolding validate execute_standalone ended_code checked_code
root_command reg u c = checked_code (validate reg c) (ended_code (execute_standalone u c).ended)

-- The code after a `Run` that has returned; none while it goes on.
unfoldable pub returned_code : Progress → Option ℕ
returned_code going = none
returned_code (done none) = some 0
returned_code (done (some e)) = some 1

unfoldable pub checked_run {ℓ} : {E : Type ℓ} → Option E → Option ℕ → Option ℕ
checked_run none code = code
checked_run (some e) code = some 1

-- The command `coordinator`.
unfoldable pub coordinator_command :
    Registry → Peers → ℤ → List WaitEvent → List TestEvent → Config → CoordinatorConfig → Option ℕ
unfolding validate validate_coordinator checked_run returned_code new_coordinator
coordinator_command reg peers now ws ts c cc = checked_run (validate reg c) (
    checked_run (validate_coordinator cc) (
      returned_code
        (perpx_load_test.Coordinator.Running.run peers now ws ts (new_coordinator c cc)).1))

-- The command `worker`; `made_id` is what `makeWorkerID` returns.
module _ (is_lower is_digit : ℕ → Bool) (made_id : String) where
  unfoldable pub run_worker :
      Registry → perpx_load_test.Worker.Surroundings → Result ConfigError Worker → Option ℕ
  unfolding returned_code
  run_worker reg s (err e) = some 1
  run_worker reg s (ok w) = returned_code (perpx_load_test.Worker.run reg s w).1

  unfoldable pub worker_command :
      Registry → perpx_load_test.Worker.Surroundings → WorkerConfig → Option ℕ
  unfolding validate_worker new_worker checked_run run_worker
  worker_command reg s wc =
      checked_run (validate_worker is_lower is_digit wc)
        (run_worker reg s (new_worker is_lower is_digit made_id wc))
