-- ===== src/Tui/Examples.antt =====
-- The terminal UI at concrete inputs.
use perpx_load_test.Base.{◌≡◌, List, [], ◌∷◌, ◌++◌}
use perpx_load_test.Base.Int.{pos}
use perpx_load_test.Tui.{
  Snapshot, Tui, Event, tick, goroutine_returns, call_goes_on, stop_call, clear_screen, show_cursor,
  start_standalone_tui, run,
}
use perpx_load_test.Tui.Stopping.{IsQuietAfter, run-IsQuietAfter}
use perpx_load_test.Samples.{ten_txs}

-- Two transactors at one endpoint, and one whose index is not known.
abbrev two_and_one : Snapshot
two_and_one = record {
  addrs = "ws://b" ∷ "ws://b" ∷ [];
  tx_counts = (0, pos 5) ∷ (1, pos 7) ∷ (2, pos 1) ∷ [];
  tx_bytes = (0, pos 50) ∷ (1, pos 70) ∷ [];
  start_time = pos 1;
}

-- The same transactors four seconds later.
abbrev two_and_one_later : Snapshot
two_and_one_later = record two_and_one { tx_counts = (0, pos 9) ∷ (1, pos 7) ∷ (2, pos 3) ∷ [] }

-- A tick is taken after the channel has been closed, and one comes when the UI has been stopped.
abbrev stopped_late : List Event
stopped_late =
    tick (pos 9) two_and_one
    ∷ stop_call
    ∷ tick (pos 12) two_and_one
    ∷ call_goes_on
    ∷ goroutine_returns
    ∷ call_goes_on
    ∷ tick (pos 15) two_and_one
    ∷ []

abbrev after_late : Tui
after_late = run ten_txs (start_standalone_tui (pos 3)) stopped_late

run-IsQuietAfter_example :
    IsQuietAfter after_late.terminal
    × ((run ten_txs after_late (stop_call ∷ goroutine_returns ∷ call_goes_on ∷ [])).terminal
        ≡ after_late.terminal ++ (clear_screen ∷ show_cursor ∷ []))
run-IsQuietAfter_example = run-IsQuietAfter ten_txs (pos 3) stopped_late
