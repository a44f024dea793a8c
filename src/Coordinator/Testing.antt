-- ===== src/Coordinator/Testing.antt =====
-- The testing phase: logTestingProgress and receiveTestingUpdates of pkg/loadtest/coordinator.go.
use perpx_load_test.Base.{
  ℕ, suc, Bool, true, false, not, ◌&&◌, String, str_eq, Option, none, some, List, [], ◌∷◌,
  if◌then◌else◌, is_some, lookup, insert,
}
use perpx_load_test.Base.Int.{ℤ, pos, negsuc, ltb_ℤ, leb_ℤ, add_int64, sub_int64}
use perpx_load_test.Transactor.{Rate, zero_rate, per}
use perpx_load_test.Protocol.{
  WorkerState, testing, failed, completed, Failure, server_stopped_early, test_cancelled,
  unexpected_state, remote_worker_failed, WorkerMsg,
}
use perpx_load_test.Coordinator.{Coordinator, Progress, done, going, in_test, unregister}

-- The sum of the values of a map, as the `range` loop adds them up.
unfoldable pub sum_values : ℤ → List (String × ℤ) → ℤ
sum_values acc [] = acc
sum_values acc (e ∷ m) = sum_values (add_int64 acc e.1) m

unfoldable pub rate_over : ℤ → ℤ → Rate
rate_over amount elapsed = if ltb_ℤ (pos 0) elapsed then per amount elapsed else zero_rate

-- The end of `logTestingProgress`: the statistics file, once all workers have completed.
unfoldable pub write_stats : ℕ → ℤ → ℤ → ℤ → Coordinator → Coordinator
write_stats n txs bytes elapsed c =
    if leb_ℤ c.coord_cfg.expect_workers (pos n) && not (str_eq c.cfg.stats_output_file "")
    then record c {
      stats_written =
          record { stats_txs = txs; stats_time = elapsed; stats_bytes = bytes } ∷ c.stats_written;
    }
    else c

-- `logTestingProgress` before it writes the statistics file.
unfoldable pub measured : ℤ → ℕ → Coordinator → Coordinator
unfolding sum_values rate_over
measured now n c =
    let txs = sum_values (pos 0) c.total_txs_per_worker in
    let bytes = sum_values (pos 0) c.total_bytes_per_worker in
    let overall_elapsed = sub_int64 now c.start_time in
    let elapsed = sub_int64 now c.last_progress_update in
    record c {
      last_progress_update = now;
      total_txs = txs;
      total_bytes = bytes;
      total_txs_metric = txs;
      total_bytes_metric = bytes;
      tx_rate_metric = rate_over (sub_int64 txs c.total_txs) elapsed;
      tx_data_rate_metric = rate_over (sub_int64 bytes c.total_bytes) elapsed;
      overall_tx_rate_metric = rate_over txs overall_elapsed;
      workers_completed_metric = n;
    }

-- `logTestingProgress` at the time `now`.
unfoldable pub log_testing_progress : ℤ → ℕ → Coordinator → Coordinator
unfolding measured write_stats
log_testing_progress now n c =
    let c' = measured now n c in
    write_stats n c'.total_txs c'.total_bytes (sub_int64 now c.start_time) c'

-- What `receiveTestingUpdates` receives, with the time where the handler reads the clock.
pub data TestEvent : Type 0 where
  update : WorkerMsg → ℤ → TestEvent
  leaving : String → Option Failure → TestEvent
  progress_tick : ℤ → TestEvent
  stop_test : TestEvent
  server_gone : TestEvent

-- The coordinator and the loop's `completed`.
pub record Testing : Type 0 where
  pub coord : Coordinator
  pub completed_count : ℕ

-- The counts of a worker's message, where they are positive.
unfoldable pub track_message : WorkerMsg → Coordinator → Coordinator
track_message msg c = record c {
  total_txs_per_worker =
      if ltb_ℤ (pos 0) msg.tx_count
      then insert msg.id msg.tx_count c.total_txs_per_worker
      else c.total_txs_per_worker;
  total_bytes_per_worker =
      if ltb_ℤ (pos 0) msg.total_tx_bytes
      then insert msg.id msg.total_tx_bytes c.total_bytes_per_worker
      else c.total_bytes_per_worker;
}

-- What follows `completed++`, by whether all the workers that are expected have completed.
unfoldable pub after_count : Bool → ℤ → Testing → Testing × Progress
unfolding log_testing_progress
after_count true now t =
    (record t { coord = log_testing_progress now t.completed_count t.coord }, done none)
after_count false now t = (t, going)

unfoldable pub complete_one : ℤ → Testing → Testing × Progress
unfolding after_count
complete_one now t =
    let n = suc t.completed_count in
    after_count (leb_ℤ t.coord.coord_cfg.expect_workers (pos n)) now
      (record t { completed_count = n })

-- The `switch` on the message's state.
unfoldable pub by_state : WorkerState → WorkerMsg → ℤ → Testing → Testing × Progress
unfolding complete_one
by_state testing msg now t = (t, going)
by_state completed msg now t = complete_one now t
by_state failed msg now t = (t, done (some msg.error))
by_state s msg now t = (t, done (some (unexpected_state s)))

unfoldable pub test_step : Testing → TestEvent → Testing × Progress
unfolding by_state track_message unregister
test_step t (update msg now) =
    if is_some (lookup msg.id t.coord.workers)
    then by_state msg.state msg now (record t { coord = track_message msg t.coord })
    else (t, going)
test_step t (leaving id none) = (record t { coord = unregister id t.coord }, going)
test_step t (leaving id (some e)) =
    (record t { coord = unregister id t.coord }, done (some (remote_worker_failed e)))
test_step t (progress_tick now) =
    (record t { coord = log_testing_progress now t.completed_count t.coord }, going)
test_step t stop_test = (t, done (some test_cancelled))
test_step t server_gone = (t, done (some server_stopped_early))

unfoldable pub test_on : Testing × Progress → List TestEvent → Testing × Progress
test_on (t, done e) es = (t, done e)
test_on (t, going) [] = (t, going)
test_on (t, going) (e ∷ es) = test_on (test_step t e) es

-- The gauge of the test underway is set back when the loop returns, on every path.
unfoldable pub test_over : Testing × Progress → Coordinator × Progress
test_over (t, going) = (t.coord, going)
test_over (t, done e) = (record t.coord { test_underway_metric = negsuc 0 }, done e)

-- What `receiveTestingUpdates` does before its loop, at the time `now`.
unfoldable pub testing_begun : ℤ → Coordinator → Testing
testing_begun now c = record {
  coord = record c {
    state_metric = in_test;
    test_underway_metric = c.coord_cfg.load_test_id;
    start_time = now;
    last_progress_update = now;
  };
  completed_count = 0;
}

-- `receiveTestingUpdates`, begun at the time `now`.
unfoldable pub receive_testing_updates : ℤ → Coordinator → List TestEvent → Coordinator × Progress
unfolding test_on test_over testing_begun
receive_testing_updates now c es = test_over (test_on (testing_begun now c, going) es)
