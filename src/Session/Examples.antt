-- ===== src/Session/Examples.antt =====
-- A coordinator and its remote worker at concrete inputs.
use perpx_load_test.Base.{ℕ, Option, none, List, [], ◌∷◌, ok}
use perpx_load_test.Base.Int.{pos}
use perpx_load_test.Config.{CoordinatorConfig}
use perpx_load_test.Protocol.{Failure, WorkerMsg, blank, testing, completed}
use perpx_load_test.Session.{begun, Move, connect, receive, hear, request_taken, update_taken, play}
use perpx_load_test.Session.Turns.{play-IsSound}
use perpx_load_test.Session.Sound.{IsSound}
use perpx_load_test.Samples.{ten_txs, two_workers}

abbrev one_expected : CoordinatorConfig
one_expected = record two_workers { expect_workers = pos 1 }

abbrev says : WorkerMsg
says = record blank { id = "a" }

abbrev no_error : ℕ → Option Failure
no_error w = none

-- A worker connects, is registered, is told to begin, reports and completes.
abbrev one_test : List Move
one_test =
    connect
    ∷ receive 0 (ok says)
    ∷ request_taken no_error (pos 5)
    ∷ hear 0 0 none
    ∷ hear 0 1 none
    ∷ receive 0 (ok (record says { state = testing; tx_count = pos 4 }))
    ∷ update_taken (pos 6)
    ∷ receive 0 (ok (record says { state = completed; tx_count = pos 10 }))
    ∷ update_taken (pos 8)
    ∷ []

play-IsSound_example : IsSound (pos 1) (play (begun ten_txs one_expected) one_test)
play-IsSound_example = play-IsSound ten_txs one_expected one_test
