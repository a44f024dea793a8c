-- ===== src/Coordinator.antt =====
-- pkg/loadtest/coordinator.go: the coordinator, its registry of workers and the wait for them; its
-- testing phase is in Testing, and `Run` in Running. What its channels deliver is a list of events, in
-- the order in which its `select` takes them. A remote worker is a handle; what the coordinator calls
-- on it is recorded, and what the call returns comes with the event. Prometheus gauges are fields.
pub mod Testing
pub mod Running
pub mod Registry
pub mod Start
pub mod Waiting
pub mod Taken
pub mod Tally
pub mod Updates
pub mod Endings
pub mod Leaving
pub mod Totals
pub mod Completion
pub mod Examples
use perpx_load_test.Base.{
  ℕ, suc, Bool, true, false, not, ◌&&◌, String, str_eq, Option, none, some, List, [], ◌∷◌, ◌++◌,
  map, if◌then◌else◌, is_some, length, lookup, insert, delete,
}
use perpx_load_test.Base.Int.{ℤ, pos, negsuc, ltb_ℤ, leb_ℤ, add_int64, sub_int64}
use perpx_load_test.Config.{Config, CoordinatorConfig}
use perpx_load_test.Transactor.{Rate, zero_rate, per}
use perpx_load_test.Protocol.{
  WorkerState, testing, failed, completed, Failure, too_many_workers, worker_exists,
  workers_timeout, wait_routine_cancelled, server_stopped_early, test_cancelled, unexpected_state,
  remote_worker_failed, WorkerMsg,
}

-- The values of the status gauge.
pub data Status : Type 0 where
  starting waiting_for_peers waiting_for_workers in_test has_failed has_completed : Status

-- A call on a remote worker: the answer to its registration, `StartLoadTest`, `Fail` and `Stop`.
pub data Call : Type 0 where
  answer : ℕ → Option Failure → Call
  start : ℕ → Call
  fail : ℕ → Failure → Call
  stop : ℕ → Call

-- The fields of `AggregateStats` that the coordinator gives; the time is in nanoseconds.
pub record Stats : Type 0 where
  pub stats_txs : ℤ
  pub stats_time : ℤ
  pub stats_bytes : ℤ

pub record Coordinator : Type 0 where
  pub cfg : Config
  pub coord_cfg : CoordinatorConfig
  pub workers : List (String × ℕ)
  pub total_txs_per_worker : List (String × ℤ)
  pub total_bytes_per_worker : List (String × ℤ)
  pub start_time : ℤ
  pub last_progress_update : ℤ
  pub total_txs : ℤ
  pub total_bytes : ℤ
  pub state_metric : Status
  pub test_underway_metric : ℤ
  pub total_txs_metric : ℤ
  pub total_bytes_metric : ℤ
  pub tx_rate_metric : Rate
  pub tx_data_rate_metric : Rate
  pub overall_tx_rate_metric : Rate
  pub workers_completed_metric : ℕ
  pub stats_written : List Stats
  pub calls : List Call

-- Whether a loop goes on or has returned, and with which error.
pub data Progress : Type 0 where
  going : Progress
  done : Option Failure → Progress

unfoldable pub new_coordinator : Config → CoordinatorConfig → Coordinator
new_coordinator cfg coord_cfg = record {
  cfg = cfg;
  coord_cfg = coord_cfg;
  workers = [];
  total_txs_per_worker = [];
  total_bytes_per_worker = [];
  start_time = pos 0;
  last_progress_update = pos 0;
  total_txs = pos 0;
  total_bytes = pos 0;
  state_metric = starting;
  test_underway_metric = negsuc 0;
  total_txs_metric = pos 0;
  total_bytes_metric = pos 0;
  tx_rate_metric = zero_rate;
  tx_data_rate_metric = zero_rate;
  overall_tx_rate_metric = zero_rate;
  workers_completed_metric = 0;
  stats_written = [];
  calls = [];
}

-- Calls are recorded oldest first.
unfoldable pub record_call : Call → Coordinator → Coordinator
record_call x c = record c { calls = c.calls ++ (x ∷ []) }

-- `len(c.workers) >= c.coordCfg.ExpectWorkers`.
abbrev pub is_full : Coordinator → Bool
is_full c = leb_ℤ c.coord_cfg.expect_workers (pos (length c.workers))

-- `registerRemoteWorker`.
unfoldable pub register : String → ℕ → Coordinator → Coordinator × Option Failure
register id handle c =
    if is_full c
    then (c, some too_many_workers)
    else if is_some (lookup id c.workers)
    then (c, some (worker_exists id))
    else (
      record c {
        workers = insert id handle c.workers;
        total_txs_per_worker = insert id (pos 0) c.total_txs_per_worker;
        total_bytes_per_worker = insert id (pos 0) c.total_bytes_per_worker;
      },
      none,
    )

-- `unregisterRemoteWorker`.
unfoldable pub unregister : String → Coordinator → Coordinator
unregister id c = record c { workers = delete id c.workers }

-- A call that fails ends the loop of `startLoadTest`.
unfoldable pub go_on :
    Option Failure → Coordinator → Coordinator × Option Failure → Coordinator × Option Failure
go_on (some e) c rest = (c, some e)
go_on none c rest = rest

-- `startLoadTest` over the workers in the order of the map; `outcome` is what each call returns.
unfoldable pub start_each :
    (ℕ → Option Failure) → List (String × ℕ) → Coordinator → Coordinator × Option Failure
unfolding record_call go_on
start_each outcome [] c = (c, none)
start_each outcome (w ∷ ws) c =
    let rest = start_each outcome ws (record_call (start w.1) c) in
    go_on (outcome w.1) (record_call (start w.1) c) rest

unfoldable pub start_load_test : (ℕ → Option Failure) → Coordinator → Coordinator × Option Failure
unfolding start_each
start_load_test outcome c = start_each outcome c.workers c

-- What `waitForWorkers` receives. A registration comes with what the calls of `StartLoadTest`
-- return, should it complete the set of workers.
pub data WaitEvent : Type 0 where
  register_request : String → ℕ → (ℕ → Option Failure) → WaitEvent
  unregister_request : String → Option Failure → WaitEvent
  connect_timeout : WaitEvent
  stop_signal : WaitEvent
  server_stopped : WaitEvent

unfoldable pub after_start : Coordinator × Option Failure → Coordinator × Progress
after_start (c, e) = (c, done e)

unfoldable pub answered : ℕ → Coordinator × Option Failure → Coordinator
unfolding record_call
answered handle (c, e) = record_call (answer handle e) c

-- `if len(c.workers) >= c.coordCfg.ExpectWorkers { return c.startLoadTest() }`.
unfoldable pub begin_if_full : (ℕ → Option Failure) → Coordinator → Coordinator × Progress
unfolding start_load_test after_start
begin_if_full outcome c = if is_full c then after_start (start_load_test outcome c) else (c, going)

unfoldable pub wait_step : Coordinator → WaitEvent → Coordinator × Progress
unfolding register unregister answered begin_if_full
wait_step c (register_request id handle outcome) =
    begin_if_full outcome (answered handle (register id handle c))
wait_step c (unregister_request id e) = (unregister id c, going)
wait_step c connect_timeout = (c, done (some workers_timeout))
wait_step c stop_signal = (c, done (some wait_routine_cancelled))
wait_step c server_stopped = (c, done (some server_stopped_early))

-- Once the loop has returned nothing more is taken.
unfoldable pub wait_on : Coordinator × Progress → List WaitEvent → Coordinator × Progress
wait_on (c, done e) es = (c, done e)
wait_on (c, going) [] = (c, going)
wait_on (c, going) (e ∷ es) = wait_on (wait_step c e) es

-- `waitForWorkers`: the loop over the events, until it returns or they run out.
unfoldable pub wait_for_workers : Coordinator → List WaitEvent → Coordinator × Progress
unfolding wait_on
wait_for_workers c es = wait_on (record c { state_metric = waiting_for_workers }, going) es
