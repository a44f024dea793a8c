-- ===== src/Worker.antt =====
-- pkg/loadtest/worker.go: a worker, from the dialling of the coordinator to its final report. What the
-- coordinator answers, what the writes return and what the transactors go through is the record of the
-- surroundings; each message whose write succeeds is recorded, oldest first.
pub mod Interrupts
pub mod Cancelling
pub mod Reports
pub mod Messages
pub mod Exchange
pub mod Examples
use perpx_load_test.Base.{
  codes, ℕ, Bool, true, false, String, str_eq, Option, none, some, List, [], ◌∷◌, ◌++◌,
  if◌then◌else◌, Result, ok, err, is_some,
}
use perpx_load_test.Base.Int.{ℤ, pos}
use perpx_load_test.Config.{
  Config, ConfigError, WorkerConfig, Registry, validate, is_valid_worker_id, bad_worker_id,
}
use perpx_load_test.Transactor.{Event, StopError}
use perpx_load_test.Protocol.{
  WorkerState, connected, accepted, rejected, testing, failed, completed, other_state, Failure,
  connect_timeout, worker_cancelled, not_accepted, missing_config, config_refused, unexpected_state,
  group_error, WorkerMsg, blank,
}
use perpx_load_test.Coordinator.{Progress, going, done}
use perpx_load_test.Group.{
  Group, new_group, add_all, set_progress_callback, cancel_unread, resume, total_txs, total_bytes,
}

pub record Worker : Type 0 where
  pub id : String
  pub coord_addr : String
  pub cfg : Option Config
  pub outbox : List WorkerMsg
  pub group : Group
  pub closed : Bool

-- `NewWorker`; `made_id` is what `makeWorkerID` returns.
module _ (is_lower is_digit : ℕ → Bool) (made_id : String) where
  unfoldable pub new_worker : WorkerConfig → Result ConfigError Worker
  unfolding is_valid_worker_id
  new_worker c =
      let worker_id = if str_eq c.id "" then made_id else c.id in
      if is_valid_worker_id is_lower is_digit (codes worker_id)
      then ok (record {
        id = worker_id;
        coord_addr = c.coord_addr;
        cfg = none;
        outbox = [];
        group = new_group;
        closed = false;
      })
      else err (bad_worker_id worker_id)

-- A round of `connectToCoordinator`: the dial succeeds, or it fails and the `select` takes one of its
-- three branches.
pub data Dial : Type 0 where
  dialled dial_timeout dial_cancelled dial_again : Dial

-- A round of `waitForStart`: a message is read, or none, with whether the worker has been cancelled.
pub data Poll : Type 0 where
  polled : WorkerMsg → Poll
  silent : Bool → Poll

-- A tick of the progress reporter while the test runs: the totals that it reads, what its write returns,
-- which results `Wait` has still to read then, and what the transactors meet afterwards.
pub record Report : Type 0 where
  pub txs : ℤ
  pub bytes : ℤ
  pub outcome : Option Failure
  pub unread : List Bool
  pub later : List (List Event)

pub record Surroundings : Type 0 where
  pub dials : List Dial
  pub hello_outcome : Option Failure
  pub answer : Result Failure WorkerMsg
  pub cancelled_early : Bool
  pub polls : List Poll
  pub refused : ℕ → Option Failure
  pub closes : ℕ → Bool
  pub start_time : ℤ
  pub events : List (List Event)
  pub reports : List Report
  pub final_outcome : Option Failure

unfoldable pub write : WorkerMsg → Worker → Worker
write msg w = record w { outbox = w.outbox ++ (msg ∷ []) }

-- A message by what its write returns: one whose write fails is not with the coordinator.
unfoldable pub sent : Option Failure → WorkerMsg → Worker → Worker
unfolding write
sent none msg w = write msg w
sent (some e) msg w = w

-- `fail`, where the write is taken to succeed; what it returns is dropped.
unfoldable pub fail_with : Failure → Worker → Worker
unfolding write
fail_with e w = write (record blank { id = w.id; state = failed; error = e }) w

unfoldable pub connect : List Dial → Worker → Worker × Progress
connect [] w = (w, going)
connect (dialled ∷ ds) w = (w, done none)
connect (dial_timeout ∷ ds) w = (w, done (some connect_timeout))
connect (dial_cancelled ∷ ds) w = (w, done (some worker_cancelled))
connect (dial_again ∷ ds) w = connect ds w

-- The end of `register`: the check of the configuration and whether the worker has been cancelled.
unfoldable pub take_config : Option ConfigError → Bool → Config → Worker → Worker × Progress
unfolding fail_with
take_config (some e) early c w = (fail_with (config_refused e) w, done (some (config_refused e)))
take_config none true c w = (w, done (some worker_cancelled))
take_config none false c w = (record w { cfg = some c }, done none)

unfoldable pub accepted_with : Registry → Bool → Option Config → Worker → Worker × Progress
unfolding fail_with take_config validate
accepted_with reg early none w = (fail_with missing_config w, done (some missing_config))
accepted_with reg early (some c) w = take_config (validate reg c) early c w

unfoldable pub answered_by : Registry → Bool → WorkerState → WorkerMsg → Worker → Worker × Progress
unfolding accepted_with
answered_by reg early accepted msg w = accepted_with reg early msg.config w
answered_by reg early s msg w = (w, done (some (not_accepted s)))

unfoldable pub registered_by :
    Registry → Option Failure → Result Failure WorkerMsg → Bool → Worker → Worker × Progress
unfolding answered_by
registered_by reg (some e) r early w = (w, done (some e))
registered_by reg none (err e) early w = (w, done (some e))
registered_by reg none (ok msg) early w = answered_by reg early msg.state msg w

-- `register`.
unfoldable pub register : Registry → Surroundings → Worker → Worker × Progress
unfolding sent registered_by
register reg s w =
    registered_by reg s.hello_outcome s.answer s.cancelled_early
      (sent s.hello_outcome (record blank { id = w.id }) w)

unfoldable pub begun_by : WorkerState → Progress
begun_by testing = done none
begun_by s = done (some (unexpected_state s))

-- `waitForStart`.
unfoldable pub wait_for_start : List Poll → Worker → Worker × Progress
unfolding begun_by
wait_for_start [] w = (w, going)
wait_for_start (polled msg ∷ ps) w = (w, begun_by msg.state)
wait_for_start (silent true ∷ ps) w = (w, done (some worker_cancelled))
wait_for_start (silent false ∷ ps) w = wait_for_start ps w

abbrev pub progress_msg : String → Report → WorkerMsg
progress_msg id r = record blank {
  id = id;
  state = testing;
  tx_count = r.txs;
  total_tx_bytes = r.bytes;
}

-- `reportProgress`, which cancels the group where the message cannot be written.
unfoldable pub report_progress : Report → Worker → Worker
unfolding sent cancel_unread
report_progress r w =
    let w' = sent r.outcome (progress_msg w.id r) w in
    if is_some r.outcome then record w' { group = cancel_unread r.unread w'.group } else w'

-- The ticks of the progress reporter, between which the transactors go on.
unfoldable pub report : List Report → Worker → Worker
unfolding report_progress resume
report [] w = w
report (r ∷ rs) w =
    let w' = report_progress r w in report rs (record w' { group = resume r.later w'.group })

-- `reportFinalResults`.
unfoldable pub final_report : Worker → WorkerMsg
unfolding total_txs total_bytes
final_report w = record blank {
  id = w.id;
  state = completed;
  tx_count = total_txs w.group;
  total_tx_bytes = total_bytes w.group;
}

-- What follows the group's `Wait`, by its error.
unfoldable pub finished_with : Option StopError → Option Failure → Worker → Worker × Progress
unfolding sent final_report
finished_with (some e) outcome w = (w, done (some (group_error e)))
finished_with none outcome w = (sent outcome (final_report w) w, done outcome)

unfoldable pub wait_group : Option Failure → Worker → Worker × Progress
unfolding finished_with
wait_group outcome w =
    let (g, e) = perpx_load_test.Group.wait w.group in
    finished_with e outcome (record w { group = g })

-- What follows `AddAll`, by its error.
unfoldable pub filled_with : Surroundings → Worker → Group × Option Failure → Worker × Progress
unfolding report wait_group set_progress_callback
filled_with s w (g, some e) = (record w { group = g }, done (some e))
filled_with s w (g, none) = wait_group s.final_outcome (
    report s.reports (record w {
      group =
          perpx_load_test.Group.start s.start_time s.events
            (set_progress_callback (pos 3_000_000_000) g);
    }))

-- `executeLoadTest`; without a configuration, that of the zero value, it is not called.
unfoldable pub execute_load_test : Surroundings → Option Config → Worker → Worker × Progress
unfolding filled_with add_all
execute_load_test s none w = (w, done (some missing_config))
execute_load_test s (some c) w = filled_with s w (add_all s.refused s.closes c new_group)

-- What `Run` does with an error of its last two parts.
unfoldable pub or_fail : Worker × Progress → Worker × Progress
unfolding fail_with
or_fail (w, done (some e)) = (fail_with e w, done (some e))
or_fail (w, p) = (w, p)

unfoldable pub and_then : Worker × Progress → (Worker → Worker × Progress) → Worker × Progress
and_then (w, done none) k = k w
and_then (w, p) k = (w, p)

-- The deferred `close`.
unfoldable pub close_after : Worker × Progress → Worker × Progress
close_after (w, going) = (w, going)
close_after (w, done e) = (record w { closed = true }, done e)

-- `Run` once the coordinator has been reached.
unfoldable pub session : Registry → Surroundings → Worker → Worker × Progress
unfolding register wait_for_start execute_load_test or_fail and_then
session reg s w = and_then (register reg s w) (λ w1.
    and_then (or_fail (wait_for_start s.polls w1)) (λ w2. or_fail (execute_load_test s w2.cfg w2)))

-- `Run`.
unfoldable pub run : Registry → Surroundings → Worker → Worker × Progress
unfolding connect and_then close_after session
run reg s w = and_then (connect s.dials w) (λ w1. close_after (session reg s w1))
