-- ===== src/Worker/Examples.antt =====
-- A worker at concrete inputs.
use perpx_load_test.Base.{◌≡◌, refl, true, false, none, some, List, [], ◌∷◌, ok}
use perpx_load_test.Base.Int.{pos}
use perpx_load_test.Config.{Registry}
use perpx_load_test.Transactor.{new_transactor, Event, time_limit, check_limit, fire, check_stop}
use perpx_load_test.Protocol.{accepted, testing, blank, WorkerMsg}
use perpx_load_test.Coordinator.{done}
use perpx_load_test.Group.{new_group}
use perpx_load_test.Worker.{Worker, Surroundings, dialled, dial_again, polled, silent, run}
use perpx_load_test.Worker.Interrupts.{signalled_test}
use perpx_load_test.Worker.Cancelling.{FailsLast, signalled_test-FailsLast}
use perpx_load_test.RemoteWorker.{new_remote_worker}
use perpx_load_test.Worker.Messages.{hello}
use perpx_load_test.Worker.Exchange.{HasRelayed, opening, reads, run-HasRelayed}
use perpx_load_test.Samples.{ten_txs}

abbrev accepting : Registry
accepting = ("kvstore", record { validate_config = λ c. none }) ∷ []

abbrev idle_turn : List Event
idle_turn = check_limit ∷ fire time_limit ∷ check_stop true ∷ []

abbrev calm : Surroundings
calm = record {
  dials = dial_again ∷ dialled ∷ [];
  hello_outcome = none;
  answer = ok (record blank { id = "a"; state = accepted; config = some ten_txs });
  cancelled_early = false;
  polls = silent false ∷ polled (record blank { id = "a"; state = testing }) ∷ [];
  refused = λ i. none;
  closes = λ i. true;
  start_time = pos 0;
  events = idle_turn ∷ [];
  reports =
      record { txs = pos 0; bytes = pos 0; outcome = none; unread = true ∷ []; later = [] } ∷ [];
  final_outcome = none;
}

abbrev joining : Worker
joining = record {
  id = "a";
  coord_addr = "ws://localhost:26670";
  cfg = none;
  outbox = [];
  group = new_group;
  closed = false;
}

ends_well : (run accepting calm joining).1 ≡ done none
unfolding run new_group perpx_load_test.Group.wait perpx_load_test.Group.start
    perpx_load_test.Transactor.wait perpx_load_test.Transactor.run perpx_load_test.Transactor.step
ends_well = refl

-- A worker whose group has two transactors, interrupted when the result of the first has been read.
abbrev testing_worker : Worker
testing_worker = record joining {
  group = record new_group { transactors = new_transactor ten_txs ∷ new_transactor ten_txs ∷ [] };
}

abbrev before_signal : List (List Event)
before_signal = idle_turn ∷ (check_limit ∷ []) ∷ []

abbrev after_signal : List (List Event)
after_signal = [] ∷ idle_turn ∷ []

signalled_test-FailsLast_example :
    FailsLast
      (signalled_test (pos 0) before_signal (false ∷ true ∷ []) after_signal none testing_worker)
signalled_test-FailsLast_example =
    signalled_test-FailsLast (pos 0) before_signal (false ∷ true ∷ []) after_signal none
      testing_worker tt

run-HasRelayed_example :
    (us : List WorkerMsg) × ((run accepting calm joining).0.outbox ≡ hello "a" ∷ us)
    × HasRelayed us (
        perpx_load_test.RemoteWorker.run
          (perpx_load_test.RemoteWorker.run new_remote_worker (opening "a" ten_txs))
          (reads us))
run-HasRelayed_example = run-HasRelayed accepting calm joining ten_txs refl refl ends_well
