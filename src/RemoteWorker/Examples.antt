-- ===== src/RemoteWorker/Examples.antt =====
-- A remote worker at concrete inputs.
use perpx_load_test.Base.{none, [], ◌∷◌, List, ok}
use perpx_load_test.Base.Int.{pos}
use perpx_load_test.Protocol.{testing, completed, no_text, WorkerMsg, blank}
use perpx_load_test.RemoteWorker.{Event, read, registration, control, run, new_remote_worker}
use perpx_load_test.RemoteWorker.Relay.{IsHanded, run-IsHanded}
use perpx_load_test.Samples.{ten_txs}

abbrev hello : WorkerMsg
hello = record blank { id = "a" }

abbrev a_test : List Event
a_test =
    read (ok hello)
    ∷ registration none ten_txs none
    ∷ control testing no_text none
    ∷ read (ok (record hello { state = testing; tx_count = pos 4 }))
    ∷ read (ok (record hello { state = completed; tx_count = pos 10 }))
    ∷ []

run-IsHanded_example : IsHanded (run new_remote_worker a_test)
run-IsHanded_example = run-IsHanded a_test
