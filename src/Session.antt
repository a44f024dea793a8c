-- ===== src/Session.antt =====
-- How a coordinator and its remote workers run together: the calls and channels between
-- pkg/loadtest/coordinator.go and pkg/loadtest/remote_worker.go. A state holds the remote workers in
-- the order of their connections, where a handle of the coordinator is an index; the part of `Run`
-- that the coordinator is in; and what waits in its three channels, oldest first. A move is one turn
-- of one of the goroutines, and a list of moves is a schedule. That a channel is full, and makes its
-- sender wait, is one of the schedules in which the sender is not moved.
pub mod Hands
pub mod Counts
pub mod Sound
pub mod Turns
pub mod Examples
use perpx_load_test.Base.{
  ℕ, zero, suc, ◌==◌, Bool, true, false, String, Option, none, some, List, [], ◌∷◌, ◌++◌,
  if◌then◌else◌, get_elem?, Result,
}
use perpx_load_test.Base.Int.{ℤ}
use perpx_load_test.Config.{Config, CoordinatorConfig}
use perpx_load_test.Protocol.{Failure, WorkerMsg, no_text, testing, register_timeout}
use perpx_load_test.Coordinator.{
  Coordinator, new_coordinator, waiting_for_workers, Call, answer, start, fail, stop, Progress,
  going, done, WaitEvent, register_request, unregister_request, connect_timeout, stop_signal,
  server_stopped, wait_step,
}
use perpx_load_test.Coordinator.Testing.{
  Testing, testing_begun, TestEvent, update, leaving, progress_tick, stop_test, server_gone,
  test_step, test_over,
}
use perpx_load_test.Coordinator.Running.{stop_all, give_up, end_test}
use perpx_load_test.RemoteWorker.{
  RemoteWorker, Phase, reading_id, registering, new_remote_worker, Event, read, registration,
  control, stop_request, fail_event, step,
}

-- Where the coordinator's `Run` is, after the crawl: it waits for workers, it receives their updates,
-- or it has returned.
pub data Stage : Type 0 where
  waits : Coordinator → Stage
  tests : Testing → Stage
  returned : Coordinator → Option Failure → Stage

pub record System : Type 0 where
  pub remotes : List RemoteWorker
  pub stage : Stage
  pub requests : List (String × ℕ)
  pub updates : List WorkerMsg
  pub leavings : List (String × Option Failure)

unfoldable pub begun : Config → CoordinatorConfig → System
begun cfg coord_cfg = record {
  remotes = [];
  stage = waits (record (new_coordinator cfg coord_cfg) { state_metric = waiting_for_workers });
  requests = [];
  updates = [];
  leavings = [];
}

abbrev pub coord_of : Stage → Coordinator
coord_of (waits c) = c
coord_of (tests t) = t.coord
coord_of (returned c e) = c

-- The request of `RegisterRemoteWorker`, once the ID has been read.
abbrev pub asked : Phase → ℕ → RemoteWorker → List (String × ℕ)
asked registering i rw = (rw.id, i) ∷ []
asked _ i rw = []

abbrev pub requested : Phase → ℕ → RemoteWorker → List (String × ℕ)
requested reading_id i rw = asked rw.phase i rw
requested _ i rw = []

-- What the remote worker has handed over is in the channels.
abbrev pub drained : RemoteWorker → RemoteWorker
drained rw = record rw { updates = []; unregistered = [] }

abbrev pub put : ℕ → RemoteWorker → List RemoteWorker → List RemoteWorker
put i rw [] = []
put zero rw (x ∷ xs) = rw ∷ xs
put (suc i) rw (x ∷ xs) = x ∷ put i rw xs

-- `RegisterRemoteWorker`, `ReceiveWorkerUpdate` and `UnregisterRemoteWorker` send to the coordinator.
unfoldable pub hand_over : ℕ → Phase → RemoteWorker → System → System
hand_over i before rw s = record s {
  remotes = put i (drained rw) s.remotes;
  requests = s.requests ++ requested before i rw;
  updates = s.updates ++ rw.updates;
  leavings = s.leavings ++ rw.unregistered;
}

unfoldable pub takes : ℕ → RemoteWorker → Option Event → System → System
unfolding hand_over step
takes i rw none s = s
takes i rw (some e) s = hand_over i rw.phase (step rw e) s

-- A turn of the event loop of the remote worker `i`, if it is there and has an event to take.
unfoldable pub turn : ℕ → Option RemoteWorker → (RemoteWorker → Option Event) → System → System
unfolding takes
turn i none event s = s
turn i (some rw) event s = takes i rw (event rw) s

-- What a call of the coordinator is to the event loop of the remote worker `i`: its answer,
-- `StartLoadTest`, `Fail` or `Stop`; `outcome` is what the write on the socket returns.
unfoldable pub heard : Config → Option Failure → ℕ → Option Call → RemoteWorker → Option Event
unfolding fail_event
heard cfg outcome i none rw = none
heard cfg outcome i (some (answer j a)) rw =
    if j == i then some (registration a cfg outcome) else none
heard cfg outcome i (some (start j)) rw =
    if j == i then some (control testing no_text outcome) else none
heard cfg outcome i (some (fail j e)) rw = if j == i then fail_event e outcome rw else none
heard cfg outcome i (some (stop j)) rw = if j == i then some stop_request else none

-- `Run` after a turn of `waitForWorkers`, and after one of `receiveTestingUpdates`.
unfoldable pub next_wait : ℤ → Coordinator × Progress → Stage
unfolding stop_all give_up testing_begun
next_wait now (c, going) = waits c
next_wait now (c, done (some e)) = returned (stop_all (give_up e c)) (some e)
next_wait now (c, done none) = tests (testing_begun now c)

unfoldable pub returned_with : Coordinator × Progress → Option Failure → Stage
returned_with (c, p) e = returned c e

unfoldable pub next_test : Testing × Progress → Stage
unfolding returned_with test_over end_test
next_test (t, going) = tests t
next_test (t, done e) = returned_with (end_test (test_over (t, done e))) e

-- The turns that do not depend on the remote workers.
pub data Signal : Type 0 where
  expire interrupt lose_server : Signal
  tick : ℤ → Signal

abbrev pub wait_signal : Signal → Option WaitEvent
wait_signal expire = some connect_timeout
wait_signal interrupt = some stop_signal
wait_signal lose_server = some server_stopped
wait_signal (tick now) = none

abbrev pub test_signal : Signal → Option TestEvent
test_signal expire = none
test_signal interrupt = some stop_test
test_signal lose_server = some server_gone
test_signal (tick now) = some (progress_tick now)

unfoldable pub on_wait : ℤ → Coordinator → Option WaitEvent → Stage
unfolding next_wait wait_step
on_wait now c none = waits c
on_wait now c (some w) = next_wait now (wait_step c w)

unfoldable pub on_test : Testing → Option TestEvent → Stage
unfolding next_test test_step
on_test t none = tests t
on_test t (some e) = next_test (test_step t e)

-- A turn of the coordinator that takes from one of its channels; in the testing phase it takes no
-- requests, and in the waiting phase no updates.
unfoldable pub take_request : (ℕ → Option Failure) → ℤ → Stage → List (String × ℕ) → System → System
unfolding on_wait
take_request outcome now (waits c) ((id, i) ∷ rest) s = record s {
  stage = on_wait now c (some (register_request id i outcome));
  requests = rest;
}
take_request outcome now _ _ s = s

unfoldable pub take_leaving : ℤ → Stage → List (String × Option Failure) → System → System
unfolding on_wait on_test
take_leaving now (waits c) ((id, e) ∷ rest) s = record s {
  stage = on_wait now c (some (unregister_request id e));
  leavings = rest;
}
take_leaving now (tests t) ((id, e) ∷ rest) s = record s {
  stage = on_test t (some (leaving id e));
  leavings = rest;
}
take_leaving now _ _ s = s

unfoldable pub take_update : ℤ → Stage → List WorkerMsg → System → System
unfolding on_test
take_update now (tests t) (msg ∷ rest) s = record s {
  stage = on_test t (some (update msg now));
  updates = rest;
}
take_update now _ _ s = s

unfoldable pub signalled : ℤ → Signal → Stage → Stage
unfolding on_wait on_test
signalled now x (waits c) = on_wait now c (wait_signal x)
signalled now x (tests t) = on_test t (test_signal x)
signalled now x (returned c e) = returned c e

-- One turn: a connection is upgraded; the remote worker `i` reads from its socket; it hears the call
-- number `k`; its registration times out; or the coordinator takes from a channel, or a signal. A call
-- that has been heard before finds its remote worker in a phase in which it is not taken again.
pub data Move : Type 0 where
  connect : Move
  receive : ℕ → Result Failure WorkerMsg → Move
  hear : ℕ → ℕ → Option Failure → Move
  time_out : ℕ → Move
  request_taken : (ℕ → Option Failure) → ℤ → Move
  leaving_taken : ℤ → Move
  update_taken : ℤ → Move
  signal : ℤ → Signal → Move

unfoldable pub move : System → Move → System
unfolding turn heard take_request take_leaving take_update signalled
move s connect = record s { remotes = s.remotes ++ (new_remote_worker ∷ []) }
move s (receive i r) = turn i (get_elem? s.remotes i) (λ rw. some (read r)) s
move s (hear i k outcome) =
    let c = coord_of s.stage in
    turn i (get_elem? s.remotes i) (heard c.cfg outcome i (get_elem? c.calls k)) s
move s (time_out i) =
    let cfg = (coord_of s.stage).cfg in
    turn i (get_elem? s.remotes i) (λ rw. some (registration (some register_timeout) cfg none)) s
move s (request_taken outcome now) = take_request outcome now s.stage s.requests s
move s (leaving_taken now) = take_leaving now s.stage s.leavings s
move s (update_taken now) = take_update now s.stage s.updates s
move s (signal now x) = record s { stage = signalled now x s.stage }

unfoldable pub play : System → List Move → System
unfolding move
play s [] = s
play s (m ∷ ms) = play (move s m) ms
