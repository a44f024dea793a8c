-- ===== src/Coordinator/Running.antt =====
-- The whole of `Run` of pkg/loadtest/coordinator.go, with its calls on all remote workers.
use perpx_load_test.Base.{ℕ, String, none, some, List, [], ◌∷◌, if◌then◌else◌}
use perpx_load_test.Base.Int.{ℤ, pos, ltb_ℤ}
use perpx_load_test.Protocol.{Failure}
use perpx_load_test.Coordinator.{
  Call, Coordinator, Progress, WaitEvent, done, fail, going, has_completed, has_failed, record_call,
  stop, wait_for_workers, waiting_for_peers,
}
use perpx_load_test.Coordinator.Testing.{TestEvent, receive_testing_updates}

unfoldable pub each_worker : (ℕ → Call) → List (String × ℕ) → Coordinator → Coordinator
unfolding record_call
each_worker f [] c = c
each_worker f (w ∷ ws) c = each_worker f ws (record_call (f w.1) c)

-- `failAllRemoteWorkers` and `stopRemoteWorkers`.
unfoldable pub fail_all : Failure → Coordinator → Coordinator
unfolding each_worker
fail_all reason c = each_worker (λ w. fail w reason) c.workers c

unfoldable pub stop_all : Coordinator → Coordinator
unfolding each_worker
stop_all c = each_worker stop c.workers c

-- How a phase of `Run` that has failed ends.
unfoldable pub give_up : Failure → Coordinator → Coordinator
unfolding fail_all
give_up e c = record (fail_all e c) { state_metric = has_failed }

-- `Run` after the testing phase, with the deferred `gracefulShutdown`.
unfoldable pub end_test : Coordinator × Progress → Coordinator × Progress
unfolding give_up stop_all
end_test (c, going) = (c, going)
end_test (c, done (some e)) = (stop_all (give_up e c), done (some e))
end_test (c, done none) = (stop_all (record c { state_metric = has_completed }), done none)

-- `Run` after the waiting phase.
unfoldable pub end_wait : ℤ → List TestEvent → Coordinator × Progress → Coordinator × Progress
unfolding receive_testing_updates end_test
end_wait now es (c, going) = (c, going)
end_wait now es (c, done (some e)) = (stop_all (give_up e c), done (some e))
end_wait now es (c, done none) = end_test (receive_testing_updates now c es)

-- `waitForPeers`: the endpoints that the crawl found, or its error.
pub data Peers : Type 0 where
  found : List String → Peers
  not_found : Failure → Peers

unfoldable pub with_peers :
    Peers → ℤ → List WaitEvent → List TestEvent → Coordinator → Coordinator × Progress
unfolding wait_for_workers end_wait
with_peers (not_found e) now ws ts c = (record c { state_metric = has_failed }, done (some e))
with_peers (found endpoints) now ws ts c =
    end_wait now ts
      (wait_for_workers (record c { cfg = record c.cfg { endpoints = endpoints } }) ws)

-- `Run`; the crawl happens only where peers are expected.
unfoldable pub run :
    Peers → ℤ → List WaitEvent → List TestEvent → Coordinator → Coordinator × Progress
unfolding with_peers
run peers now ws ts c =
    if ltb_ℤ (pos 0) c.cfg.expect_peers
    then with_peers peers now ws ts (record c { state_metric = waiting_for_peers })
    else end_wait now ts (wait_for_workers c ws)
