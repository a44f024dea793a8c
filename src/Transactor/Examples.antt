-- ===== src/Transactor/Examples.antt =====
-- The send loop at concrete inputs.
use perpx_load_test.Base.{codes, ℕ, ◌≤◌, ◌≡◌, refl, true, false, none, some, [], ◌∷◌, ◌++◌, arith}
use perpx_load_test.Transactor.Connection.{encode_base64}
use perpx_load_test.Base.Int.{pos}
use perpx_load_test.Transactor.{
  Attempt, written, seconds, at_limit, returned, Transactor, cancel, progress_tick, cancelled, run,
  new_transactor, wait,
}
use perpx_load_test.Transactor.Batches.{tx_frames}
use perpx_load_test.Transactor.Limit.{HasLimit, count_limited}
use perpx_load_test.Transactor.Ticks.{IsOrderly}
use perpx_load_test.Transactor.Shutdown.{turn, run-IsOrderly, stops_within_turn}
use perpx_load_test.Transactor.Turns.{Turn, turns, turn_of}
use perpx_load_test.Transactor.Progress.{timely_turns_finish}
use perpx_load_test.Transactor.Overrun.{slow_turns_exceed}
use perpx_load_test.Samples.{ten_txs}

-- Transactions of 40 bytes, a microsecond each.
abbrev quick : ℕ → Attempt
quick j = written 40 (pos 1000)

-- Transactions of 40 bytes, two seconds each.
abbrev slow : ℕ → Attempt
slow j = written 40 (pos 2_000_000_000)

limit_ten : HasLimit 10 4 ten_txs
limit_ten = record { limit = refl; rate = refl; limit_pos = omega arith; fits = omega arith }

abbrev pub quick_turn : Turn
quick_turn = (pos 0, pos 10, quick)

abbrev slow_turn : Turn
slow_turn = (pos 0, pos 10, slow)

count_limited_example :
    (k : ℕ) × ((run (new_transactor ten_txs) (turns (quick_turn ∷ quick_turn ∷ []))).tx_count
      ≡ pos k)
    × (k ≤ 10)
count_limited_example = count_limited 10 4 ten_txs (turns (quick_turn ∷ quick_turn ∷ [])) limit_ten

run-IsOrderly_example : IsOrderly (run (new_transactor ten_txs) (cancel ∷ turn_of quick_turn true))
run-IsOrderly_example = run-IsOrderly ten_txs (cancel ∷ turn_of quick_turn true)

abbrev stopped : Transactor
stopped = record (new_transactor ten_txs) { stop = true; stop_err = some cancelled }

stops_within_turn_example : (run stopped (turn progress_tick true)).phase ≡ returned
stops_within_turn_example = stops_within_turn stopped progress_tick true refl

timely_turns_finish_example :
    let t =
      run
        (new_transactor ten_txs)
        (turns (quick_turn ∷ quick_turn ∷ quick_turn ∷ []) ++ turn_of quick_turn true) in
    (t.phase ≡ returned) × (t.tx_count ≡ pos 10) × (tx_frames t.frames ≡ 10) × (wait t ≡ none)
unfolding seconds
timely_turns_finish_example =
    timely_turns_finish 10 4 ten_txs (quick_turn ∷ quick_turn ∷ quick_turn ∷ []) quick_turn true
      limit_ten ((λ j. refl), ((λ j. refl), ((λ j. refl), tt))) (λ j. refl) (omega arith)

slow_turns_exceed_example :
    let t = run (new_transactor ten_txs) (turns (slow_turn ∷ slow_turn ∷ [])) in
    (t.tx_count ≡ pos 0) × (tx_frames t.frames ≡ 2) × (t.phase ≡ at_limit) × (t.stop ≡ false)
unfolding seconds
slow_turns_exceed_example =
    slow_turns_exceed 10 4 ten_txs (slow_turn ∷ slow_turn ∷ []) limit_ten (omega arith)
      (refl, (refl, tt))

-- The padding of the encoding.
base64_test :
    (encode_base64 (codes "Man") ≡ codes "TWFu")
    × (encode_base64 (codes "Ma") ≡ codes "TWE=")
    × (encode_base64 (codes "M") ≡ codes "TQ==")
unfolding encode_base64
base64_test = (refl, refl, refl)
