-- ===== src/Protocol.antt =====
-- pkg/loadtest/states.go and pkg/loadtest/messages.go: what a coordinator and its workers exchange.
-- A failure is a constructor for each error text, with the values that the text prints; it is also
-- what the `error` field of a message carries, where `no_text` is the empty string.
use perpx_load_test.Base.{ℕ, String, Option, none}
use perpx_load_test.Base.Int.{ℤ, pos}
use perpx_load_test.Config.{Config, ConfigError}
use perpx_load_test.Transactor.{StopError}

-- A state is a string on the wire, so it may be another than the six named ones.
pub data WorkerState : Type 0 where
  connected accepted rejected testing failed completed : WorkerState
  other_state : String → WorkerState

pub data Failure : Type 0 where
  no_text : Failure
  too_many_workers : Failure
  worker_exists : String → Failure
  register_timeout : Failure
  workers_timeout : Failure
  wait_routine_cancelled : Failure
  server_stopped_early : Failure
  test_cancelled : Failure
  unexpected_state : WorkerState → Failure
  remote_worker_failed : Failure → Failure
  worker_failed : Failure → Failure
  missing_id : Failure
  socket_error : ℕ → Failure
  read_failed : Failure → Failure
  start_expected : WorkerState → Failure
  wait_cancelled : Failure
  receiver_cancelled : Failure
  control_timeout : Failure
  not_accepted : WorkerState → Failure
  missing_config : Failure
  config_refused : ConfigError → Failure
  connect_timeout : Failure
  worker_cancelled : Failure
  group_error : StopError → Failure
  peers_error : ℕ → Failure

pub record WorkerMsg : Type 0 where
  pub id : String
  pub state : WorkerState
  pub tx_count : ℤ
  pub total_tx_bytes : ℤ
  pub error : Failure
  pub config : Option Config

-- `len(msg.ID) == 0`, and the empty fields of a message that gives only some.
abbrev pub blank : WorkerMsg
blank = record {
  id = "";
  state = other_state "";
  tx_count = pos 0;
  total_tx_bytes = pos 0;
  error = no_text;
  config = none;
}
