-- ===== src/Websockets/Examples.antt =====
-- Runs of the sockets of pkg/loadtest/websockets.go.
use perpx_load_test.Base.{◌≡◌, refl, none, some, List, [], ◌∷◌, ◌++◌, codes}
use perpx_load_test.Base.Int.{pos}
use perpx_load_test.Websockets.{
  write_error, WriteRequest, text_frame, close_frame, returned, Socket, with_outbound_buf,
  new_simple_socket, put_frame, handle_write, submit_write, begin_close, send_close, Event,
  write_request, write_out, stop_call, stop_taken, reads_stopped, dispatch, step, run,
}
use perpx_load_test.Websockets.Fifo.{IsFifo, requests, taken_in, run-IsFifo}
use perpx_load_test.Websockets.Flush.{flush_events, run-flush}

abbrev first : WriteRequest
first = record { caller = 1; payload = codes "a" }

abbrev second : WriteRequest
second = record { caller = 2; payload = codes "b" }

abbrev third : WriteRequest
third = record { caller = 3; payload = codes "c" }

abbrev stopping : List Event
stopping =
    write_request first
    ∷ write_request second
    ∷ write_request third
    ∷ write_out none
    ∷ write_request third
    ∷ stop_call
    ∷ stop_taken
    ∷ []

-- The channel of one place takes the first request and, after its write, the third.
abbrev narrow : Socket
narrow = new_simple_socket (with_outbound_buf (pos 1) ∷ [])

wire_test :
    (run (run narrow stopping) (reads_stopped ∷ flush_events (none ∷ []))).wire
    ≡ text_frame (codes "a") ∷ text_frame (codes "c") ∷ close_frame ∷ []
unfolding new_simple_socket run step dispatch submit_write handle_write put_frame begin_close
    send_close
wire_test = refl

run-IsFifo_example :
    IsFifo
      (taken_in narrow (stopping ++ (reads_stopped ∷ [])))
      (run narrow (stopping ++ (reads_stopped ∷ [])))
run-IsFifo_example = run-IsFifo (with_outbound_buf (pos 1) ∷ []) (stopping ++ (reads_stopped ∷ []))

run-flush_example :
    (requests
        (run
          (step (run narrow stopping) reads_stopped)
          (write_request second ∷ flush_events (some (write_error 1) ∷ []))).answers
      ≡ first ∷ third ∷ [])
    × ((run
          (step (run narrow stopping) reads_stopped)
          (flush_events (some (write_error 1) ∷ []))).stage
        ≡ returned)
unfolding new_simple_socket run step dispatch submit_write handle_write put_frame begin_close
    send_close
run-flush_example =
    run-flush (run narrow stopping)
      (write_request second ∷ flush_events (some (write_error 1) ∷ [])) (some (write_error 1) ∷ [])
      refl refl refl refl
