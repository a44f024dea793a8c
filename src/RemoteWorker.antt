-- ===== src/RemoteWorker.antt =====
-- pkg/loadtest/remote_worker.go: a worker as the coordinator sees it. The event loop is a machine over
-- what it takes from its channels and its socket; what a read or a write returns comes with the event.
-- What it hands to the coordinator and what it writes on the socket is recorded, oldest first.
pub mod Relay
pub mod Examples
use perpx_load_test.Base.{
  ℕ, Bool, true, false, ◌&&◌, String, str_eq, Option, none, some, List, [], ◌∷◌, ◌++◌,
  if◌then◌else◌, Result, ok, err, is_some,
}
use perpx_load_test.Base.Int.{ℤ, pos}
use perpx_load_test.Config.{Config}
use perpx_load_test.Protocol.{
  WorkerState, connected, accepted, rejected, testing, failed, completed, other_state, Failure,
  no_text, missing_id, start_expected, wait_cancelled, receiver_cancelled, worker_failed,
  read_failed, remote_worker_failed, control_timeout, WorkerMsg, blank,
}

-- Which of its four parts the event loop is in, or that it has returned.
pub data Phase : Type 0 where
  reading_id registering waiting_start receiving : Phase
  ended : Option Failure → Phase

-- A gauge holds no value before it is created.
pub record RemoteWorker : Type 0 where
  pub id : String
  pub tx_count : ℤ
  pub state : WorkerState
  pub state_metric : Option ℕ
  pub tx_count_metric : Option ℤ
  pub phase : Phase
  pub outbox : List WorkerMsg
  pub updates : List WorkerMsg
  pub unregistered : List (String × Option Failure)

-- `newRemoteWorker`.
unfoldable pub new_remote_worker : RemoteWorker
new_remote_worker = record {
  id = "";
  tx_count = pos 0;
  state = connected;
  state_metric = none;
  tx_count_metric = none;
  phase = reading_id;
  outbox = [];
  updates = [];
  unregistered = [];
}

-- `workerStateMetricValues`; a missing key reads as 0.
unfoldable pub metric_value : WorkerState → ℕ
metric_value connected = 0
metric_value accepted = 1
metric_value rejected = 2
metric_value testing = 3
metric_value failed = 4
metric_value completed = 5
metric_value (other_state s) = 0

unfoldable pub write : WorkerMsg → RemoteWorker → RemoteWorker
write msg rw = record rw { outbox = rw.outbox ++ (msg ∷ []) }

-- The event loop returns: its deferred call unregisters the worker.
unfoldable pub finish : Option Failure → RemoteWorker → RemoteWorker
finish e rw = record rw { phase = ended e; unregistered = rw.unregistered ++ ((rw.id, e) ∷ []) }

-- `setState`; the gauge is set where it has been created.
unfoldable pub set_state : WorkerState → RemoteWorker → RemoteWorker
unfolding metric_value
set_state s rw = record rw {
  state = s;
  state_metric = if is_some rw.state_metric then some (metric_value s) else none;
}

unfoldable pub create_metrics : RemoteWorker → RemoteWorker
unfolding metric_value
create_metrics rw = record rw {
  state_metric = some (metric_value accepted);
  tx_count_metric = some (pos 0);
}

-- `readID` and what the event loop does with its error.
unfoldable pub read_id : Result Failure WorkerMsg → RemoteWorker → RemoteWorker
unfolding write finish
read_id (err e) rw = finish (some e) (write (record blank { state = failed; error = e }) rw)
read_id (ok msg) rw =
    if str_eq msg.id ""
    then finish (some missing_id) (write (record blank { state = failed; error = missing_id }) rw)
    else record rw { id = msg.id; phase = registering }

unfoldable pub reject : Failure → RemoteWorker → RemoteWorker
unfolding write finish
reject e rw = finish (some e) (write (record blank { state = rejected; error = e }) rw)

-- `registerRemoteWorker`: the coordinator's answer, its configuration, and what the write returns. The
-- error of the write is handled as a refusal.
unfoldable pub register : Option Failure → Config → Option Failure → RemoteWorker → RemoteWorker
unfolding reject write create_metrics
register (some e) cfg outcome rw = reject e rw
register none cfg (some e) rw =
    reject e (write (record blank { id = rw.id; state = accepted; config = some cfg }) rw)
register none cfg none rw =
    record (create_metrics
      (write (record blank { id = rw.id; state = accepted; config = some cfg }) rw)) {
        phase = waiting_start;
      }

-- A control message is written, and `sendCtrlMsg` sets the state unless the write has failed.
unfoldable pub pass_on : WorkerState → Failure → Option Failure → RemoteWorker → RemoteWorker
unfolding write set_state
pass_on s e none rw = set_state s (write (record blank { id = rw.id; state = s; error = e }) rw)
pass_on s e (some f) rw = write (record blank { id = rw.id; state = s; error = e }) rw

-- What `waitForStart` returns after a control message.
unfoldable pub started_by : WorkerState → RemoteWorker → RemoteWorker
unfolding finish
started_by testing rw = record rw { phase = receiving }
started_by s rw = finish (some (start_expected s)) rw

-- A control message in `receiveTestingUpdates`: only `failed` is answered.
unfoldable pub controlled_by : WorkerState → Failure → Option Failure → RemoteWorker → RemoteWorker
unfolding finish pass_on
controlled_by failed e outcome rw = finish (some (worker_failed e)) (pass_on failed e outcome rw)
controlled_by s e outcome rw = rw

unfoldable pub relay : WorkerMsg → RemoteWorker → RemoteWorker
relay msg rw = record rw {
  tx_count = msg.tx_count;
  tx_count_metric = some msg.tx_count;
  updates = rw.updates ++ (msg ∷ []);
}

-- An update that was read, by its state.
unfoldable pub updated_by : WorkerState → WorkerMsg → RemoteWorker → RemoteWorker
unfolding finish relay metric_value
updated_by failed msg rw = finish (some (remote_worker_failed msg.error)) rw
updated_by completed msg rw =
    finish none (record (relay msg rw) { state_metric = some (metric_value completed) })
updated_by s msg rw = relay msg rw

-- The read at a tick of `receiveTestingUpdates`.
unfoldable pub receive_update : Result Failure WorkerMsg → RemoteWorker → RemoteWorker
unfolding finish updated_by
receive_update (err e) rw = finish (some (read_failed e)) rw
receive_update (ok msg) rw = updated_by msg.state msg rw

-- What the event loop takes next: a message of the worker or the error of the read, the
-- coordinator's answer to the registration, a control message, or the closed `stop` channel.
pub data Event : Type 0 where
  read : Result Failure WorkerMsg → Event
  registration : Option Failure → Config → Option Failure → Event
  control : WorkerState → Failure → Option Failure → Event
  stop_request : Event

unfoldable pub dispatch : Phase → Event → RemoteWorker → RemoteWorker
unfolding read_id register pass_on started_by controlled_by receive_update finish
dispatch reading_id (read r) rw = read_id r rw
dispatch registering (registration a cfg outcome) rw = register a cfg outcome rw
dispatch waiting_start (control s e outcome) rw = started_by s (pass_on s e outcome rw)
dispatch waiting_start stop_request rw = finish (some wait_cancelled) rw
dispatch receiving (read r) rw = receive_update r rw
dispatch receiving (control s e outcome) rw = controlled_by s e outcome rw
dispatch receiving stop_request rw = finish (some receiver_cancelled) rw
dispatch _ _ rw = rw

-- An event that its part of the loop does not take leaves it as it is.
unfoldable pub step : RemoteWorker → Event → RemoteWorker
unfolding dispatch
step rw e = dispatch rw.phase e rw

-- `eventLoop` over the events.
unfoldable pub run : RemoteWorker → List Event → RemoteWorker
unfolding step
run rw [] = rw
run rw (e ∷ es) = run (step rw e) es

-- `Fail` asks for the control message only where the state is another than `failed`.
unfoldable pub fail_in : WorkerState → Failure → Option Failure → Option Event
fail_in failed reason outcome = none
fail_in s reason outcome = some (control failed reason outcome)

unfoldable pub fail_event : Failure → Option Failure → RemoteWorker → Option Event
unfolding fail_in
fail_event reason outcome rw = fail_in rw.state reason outcome
