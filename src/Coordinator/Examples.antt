-- ===== src/Coordinator/Examples.antt =====
-- The coordinator at concrete inputs.
use perpx_load_test.Base.{ℕ, ◌≡◌, refl, Option, none, [], ◌∷◌, List, arith}
use perpx_load_test.Base.Int.{pos}
use perpx_load_test.Protocol.{completed, testing, Failure, WorkerMsg, blank}
use perpx_load_test.Coordinator.{
  Coordinator, new_coordinator, WaitEvent, register_request, wait_for_workers, wait_step, going,
  done,
}
use perpx_load_test.Coordinator.Testing.{
  test_step, TestEvent, update, leaving, progress_tick, test_on, receive_testing_updates,
}
use perpx_load_test.Coordinator.Running.{run, found}
use perpx_load_test.Coordinator.Waiting.{IsWaited, wait_for_workers-IsWaited}
use perpx_load_test.Coordinator.Leaving.{update_after_leaving}
use perpx_load_test.Coordinator.Endings.{IsClosed, run-IsClosed}
use perpx_load_test.Coordinator.Completion.{regular_test_ends}
use perpx_load_test.Samples.{ten_txs, two_workers}

abbrev no_fault : ℕ → Option Failure
no_fault w = none

abbrev arrivals : List WaitEvent
arrivals = register_request "a" 1 no_fault ∷ register_request "b" 2 no_fault ∷ []

abbrev final : WorkerMsg
final = record blank { id = "a"; state = completed; tx_count = pos 10; total_tx_bytes = pos 400 }

abbrev updates : List TestEvent
updates =
    update (record final { state = testing; tx_count = pos 4 }) (pos 1_000_000_000)
    ∷ update final (pos 2_000_000_000)
    ∷ update (record final { id = "b" }) (pos 3_000_000_000)
    ∷ []

abbrev waiting : Coordinator
waiting = record (new_coordinator ten_txs two_workers) {
  workers = ("a", 1) ∷ [];
  total_txs_per_worker = ("a", pos 4) ∷ ("b", pos 6) ∷ [];
}

abbrev with_both : Coordinator
with_both = record waiting { workers = ("a", 1) ∷ ("b", 2) ∷ [] }

wait_for_workers-IsWaited_example :
    IsWaited (wait_for_workers (new_coordinator ten_txs two_workers) arrivals)
wait_for_workers-IsWaited_example =
    wait_for_workers-IsWaited ten_txs two_workers arrivals (omega arith)

-- With both workers there the wait is over.
both_arrive : (wait_for_workers (new_coordinator ten_txs two_workers) arrivals).1 ≡ done none
unfolding wait_for_workers new_coordinator wait_step
both_arrive = refl

update_after_leaving_example :
    test_on
      (record { coord = with_both; completed_count = 1 }, going)
      (leaving "a" none ∷ update final (pos 5) ∷ progress_tick (pos 6) ∷ [])
    ≡ test_on
        (record { coord = with_both; completed_count = 1 }, going)
        (leaving "a" none ∷ progress_tick (pos 6) ∷ [])
update_after_leaving_example =
    update_after_leaving final (pos 5) (record { coord = with_both; completed_count = 1 })
      (progress_tick (pos 6) ∷ [])

ran : (run (found []) (pos 0) arrivals updates (new_coordinator ten_txs two_workers)).1 ≡ done none
unfolding run new_coordinator wait_step test_step
ran = refl

run-IsClosed_example :
    IsClosed none (run (found []) (pos 0) arrivals updates (new_coordinator ten_txs two_workers)).0
run-IsClosed_example =
    run-IsClosed [] (pos 0) arrivals updates (new_coordinator ten_txs two_workers) none ran

regular_test_ends_example : (receive_testing_updates (pos 0) with_both updates).1 ≡ done none
unfolding new_coordinator
regular_test_ends_example =
    regular_test_ends (pos 0) with_both updates 2 refl (omega arith) (refl, (refl, (refl, tt)))
      (omega arith)
