-- ===== src/Session/Turns.antt =====
-- The coordinator's turns among its remote workers, and whole schedules (pkg/loadtest/coordinator.go).
use perpx_load_test.Base.{
  ℕ, ◌+◌, ◌≤◌, ◌≡◌, refl, ap, subst, ◌∙◌, true, String, Option, none, some, List, [], ◌∷◌, ◌++◌,
  arith, All-append,
}
use perpx_load_test.Base.Int.{ℤ, pos, ◌≤ℤ◌}
use perpx_load_test.Config.{Config, CoordinatorConfig}
use perpx_load_test.Protocol.{Failure, WorkerMsg}
use perpx_load_test.RemoteWorker.{RemoteWorker, new_remote_worker}
use perpx_load_test.Coordinator.{
  Coordinator, new_coordinator, WaitEvent, wait_step, Progress, going, done, register_request,
  unregister_request,
}
use perpx_load_test.Coordinator.Testing.{
  test_over, testing_begun, TestEvent, update, leaving, progress_tick, stop_test, server_gone,
  test_step, Testing,
}
use perpx_load_test.Coordinator.Running.{end_test}
use perpx_load_test.Coordinator.Updates.{completed_by, test_step-IsStep, IsStep}
use perpx_load_test.Session.{
  System, Stage, waits, tests, returned, begun, next_wait, next_test, returned_with, on_wait,
  on_test, take_request, take_leaving, take_update, Signal, wait_signal, signalled, expire,
  interrupt, lose_server, tick, Move, connect, receive, hear, time_out, request_taken,
  leaving_taken, update_taken, signal, move, play,
}
use perpx_load_test.Session.Hands.{IsDrained, completed_in, is_not_start, StaysEarly}
use perpx_load_test.Session.Counts.{finished_in, finished_in-append, IsPatient, wait_step-IsPatient}
use perpx_load_test.Session.Sound.{
  Staged, IsSound, le_trans_pos, turn-IsSound, heard-MayTake, anything-MayTake, some_of,
}

-- The coordinator's own turns.
next_wait-Staged :
    (x now : ℤ) (c : Coordinator) (rws : List RemoteWorker) (us : List WorkerMsg)
    (r : Coordinator × Progress)
    → IsPatient c r
    → Staged x rws us (waits c)
    → Staged x rws us (next_wait now r)
unfolding next_wait testing_begun
next_wait-Staged x now c rws us (d, going) p (q, v, w, u) =
    (ap (λ k. k.expect_workers) p.configured ∙ q, p.quiet refl v, w, u)
next_wait-Staged x now c rws us (d, done (some e)) p v = tt
next_wait-Staged x now c rws us (d, done none) p (q, v, w, u) =
    let empty : completed_in us ≡ 0 = ap completed_in u in
    (ap (λ k. k.expect_workers) p.configured ∙ q, omega (arith, empty))

on_wait-Staged :
    (x now : ℤ) (c : Coordinator) (rws : List RemoteWorker) (us : List WorkerMsg)
    (w : Option WaitEvent)
    → Staged x rws us (waits c)
    → Staged x rws us (on_wait now c w)
unfolding on_wait
on_wait-Staged x now c rws us none v = v
on_wait-Staged x now c rws us (some w) v =
    next_wait-Staged x now c rws us (wait_step c w) (wait_step-IsPatient c w) v

returned_with-Staged :
    (x : ℤ) (rws : List RemoteWorker) (us : List WorkerMsg) (p : Coordinator × Progress)
    (e : Option Failure)
    → (e ≡ none → x ≤ℤ pos (finished_in rws))
    → Staged x rws us (returned_with p e)
unfolding returned_with
returned_with-Staged x rws us (c, p) none h = h refl
returned_with-Staged x rws us (c, p) (some e) h = tt

done_none : (e : Option Failure) → e ≡ none → done e ≡ done none
done_none e h = ap done h

next_test-Staged :
    (x : ℤ) (n k : ℕ) (rws : List RemoteWorker) (us : List WorkerMsg) (r : Testing × Progress)
    → IsStep x n k r
    → n + k + completed_in us ≤ finished_in rws
    → Staged x rws us (next_test r)
unfolding next_test
next_test-Staged x n k rws us (t, going) v h =
    let counted = v.counted in (v.configured, omega (arith, h, counted))
next_test-Staged x n k rws us (t, done e) v h =
    returned_with-Staged x rws us (end_test (test_over (t, done e))) e
      (λ q. le_trans_pos x _ _ (v.ended (done_none e q)).0 (omega (arith, h)))

on_test-Staged :
    (x : ℤ) (t : Testing) (e : TestEvent) (rws : List RemoteWorker) (us : List WorkerMsg)
    → t.coord.coord_cfg.expect_workers ≡ x
    → t.completed_count + completed_by e + completed_in us ≤ finished_in rws
    → Staged x rws us (on_test t (some e))
unfolding on_test
on_test-Staged x t e rws us q h =
    next_test-Staged x t.completed_count (completed_by e) rws us (test_step t e)
      (subst (λ z. IsStep z t.completed_count (completed_by e) (test_step t e)) q
        (test_step-IsStep t e t.completed_count (omega arith)))
      h

-- A turn after which the stage alone has changed, and what has been taken from a channel.
unchanged :
    {x : ℤ} (s : System) (g : Stage) (reqs : List (String × ℕ)) (us : List WorkerMsg)
    (ls : List (String × Option Failure))
    → IsSound x s
    → Staged x s.remotes us g
    → IsSound x (record s { stage = g; requests = reqs; updates = us; leavings = ls })
unchanged s g reqs us ls v w = record { all_drained = v.all_drained; staged = w }

take_request-IsSound :
    (x : ℤ) (o : ℕ → Option Failure) (now : ℤ) (g : Stage) (reqs : List (String × ℕ)) (s : System)
    → Staged x s.remotes s.updates g
    → IsSound x s
    → IsSound x (take_request o now g reqs s)
unfolding take_request
take_request-IsSound x o now (waits c) ((id, i) ∷ rest) s w v =
    unchanged s _ rest s.updates s.leavings v
      (on_wait-Staged x now c s.remotes s.updates (some (register_request id i o)) w)
take_request-IsSound x o now (waits c) [] s w v = v
take_request-IsSound x o now (tests t) reqs s w v = v
take_request-IsSound x o now (returned c e) reqs s w v = v

take_leaving-IsSound :
    (x now : ℤ) (g : Stage) (ls : List (String × Option Failure)) (s : System)
    → Staged x s.remotes s.updates g
    → IsSound x s
    → IsSound x (take_leaving now g ls s)
unfolding take_leaving
take_leaving-IsSound x now (waits c) ((id, e) ∷ rest) s w v =
    unchanged s _ s.requests s.updates rest v
      (on_wait-Staged x now c s.remotes s.updates (some (unregister_request id e)) w)
take_leaving-IsSound x now (waits c) [] s w v = v
take_leaving-IsSound x now (tests t) ((id, e) ∷ rest) s (q, h) v =
    unchanged s _ s.requests s.updates rest v
      (on_test-Staged x t (leaving id e) s.remotes s.updates q (omega (arith, h)))
take_leaving-IsSound x now (tests t) [] s w v = v
take_leaving-IsSound x now (returned c e) ls s w v = v

take_update-IsSound :
    (x now : ℤ) (g : Stage) (us : List WorkerMsg) (s : System)
    → Staged x s.remotes us g
    → IsSound x s
    → IsSound x (take_update now g us s)
unfolding take_update
take_update-IsSound x now (tests t) (msg ∷ rest) s (q, h) v =
    unchanged s _ s.requests rest s.leavings v
      (on_test-Staged x t (update msg now) s.remotes rest q (omega (arith, h)))
take_update-IsSound x now (tests t) [] s w v = v
take_update-IsSound x now (waits c) us s w v = v
take_update-IsSound x now (returned c e) us s w v = v

signalled-Staged :
    (x now : ℤ) (y : Signal) (g : Stage) (rws : List RemoteWorker) (us : List WorkerMsg)
    → Staged x rws us g
    → Staged x rws us (signalled now y g)
unfolding signalled
signalled-Staged x now y (waits c) rws us w = on_wait-Staged x now c rws us (wait_signal y) w
signalled-Staged x now expire (tests t) rws us w = unfold on_test in w
signalled-Staged x now interrupt (tests t) rws us (q, h) =
    on_test-Staged x t stop_test rws us q (omega (arith, h))
signalled-Staged x now lose_server (tests t) rws us (q, h) =
    on_test-Staged x t server_gone rws us q (omega (arith, h))
signalled-Staged x now (tick at) (tests t) rws us (q, h) =
    on_test-Staged x t (progress_tick at) rws us q (omega (arith, h))
signalled-Staged x now y (returned c e) rws us w = w

connect-Staged :
    (x : ℤ) (rws : List RemoteWorker) (us : List WorkerMsg) (g : Stage)
    → Staged x rws us g
    → Staged x (rws ++ (new_remote_worker ∷ [])) us g
unfolding new_remote_worker
connect-Staged x rws us (waits c) (q, v, w, u) =
    (q, v, All-append StaysEarly rws (new_remote_worker ∷ []) w ((refl, refl), tt), u)
connect-Staged x rws us (tests t) (q, h) =
    let count = finished_in-append rws (new_remote_worker ∷ []) in (q, omega (arith, count, h))
connect-Staged x rws us (returned c none) v =
    le_trans_pos x _ _ v (omega (arith, finished_in-append rws (new_remote_worker ∷ [])))
connect-Staged x rws us (returned c (some e)) v = tt

move-IsSound : (x : ℤ) (s : System) (m : Move) → IsSound x s → IsSound x (move s m)
unfolding move
move-IsSound x s connect v = record {
  all_drained =
      All-append IsDrained s.remotes (new_remote_worker ∷ []) v.all_drained
        (unfold new_remote_worker in ((refl, refl), tt));
  staged = connect-Staged x s.remotes s.updates s.stage v.staged;
}
move-IsSound x s (receive i r) v =
    turn-IsSound x i _ _ s refl
      (λ rw e q. anything-MayTake s.stage e (subst (λ d. is_not_start d ≡ true) (some_of q) refl)) v
move-IsSound x s (hear i k o) v =
    turn-IsSound x i _ _ s refl
      (λ rw e q. heard-MayTake x o i k s.remotes s.updates s.stage rw e v.staged q) v
move-IsSound x s (time_out i) v =
    turn-IsSound x i _ _ s refl
      (λ rw e q. anything-MayTake s.stage e (subst (λ d. is_not_start d ≡ true) (some_of q) refl)) v
move-IsSound x s (request_taken o now) v =
    take_request-IsSound x o now s.stage s.requests s v.staged v
move-IsSound x s (leaving_taken now) v = take_leaving-IsSound x now s.stage s.leavings s v.staged v
move-IsSound x s (update_taken now) v = take_update-IsSound x now s.stage s.updates s v.staged v
move-IsSound x s (signal now y) v =
    unchanged s _ s.requests s.updates s.leavings v
      (signalled-Staged x now y s.stage s.remotes s.updates v.staged)

play_from-IsSound : (x : ℤ) (s : System) (ms : List Move) → IsSound x s → IsSound x (play s ms)
unfolding play
play_from-IsSound x s [] v = v
play_from-IsSound x s (m ∷ ms) v = play_from-IsSound x (move s m) ms (move-IsSound x s m v)

-- In every schedule of a coordinator that expects `x` workers and of the remote workers that connect
-- to it: while the coordinator waits for workers, none has been told to begin, no event loop receives
-- updates or has returned nil, and no update is on its way; and `Run` returns nil only where the event
-- loops of at least `x` remote workers have returned nil.
pub play-IsSound :
    (cfg : Config) (coord_cfg : CoordinatorConfig) (ms : List Move)
    → IsSound coord_cfg.expect_workers (play (begun cfg coord_cfg) ms)
unfolding begun new_coordinator
play-IsSound cfg coord_cfg ms =
    play_from-IsSound coord_cfg.expect_workers (begun cfg coord_cfg) ms
      (record { all_drained = tt; staged = (refl, tt, tt, refl) })
