-- ===== src/Websockets.antt =====
-- pkg/loadtest/websockets.go: the socket that a worker and a remote worker share with their peer. Its
-- two loops are a machine over what they take from their channels; what a read or a write on the
-- connection returns comes with the event. Requests and answers are kept oldest first.
pub mod Fifo
pub mod Flush
pub mod Examples
use perpx_load_test.Base.{
  ℕ, zero, suc, Bool, true, false, not, Option, none, some, List, [], ◌∷◌, ◌++◌, if◌then◌else◌, ltb,
  ◌==◌, length, Result, ok, err, ◌>>=◌, codes, is_some,
}
use perpx_load_test.Base.Int.{ℤ, pos, pos_part, ltb_ℤ}
use perpx_load_test.Protocol.{WorkerMsg}

pub data SocketFailure : Type 0 where
  read_error : ℕ → SocketFailure
  write_error : ℕ → SocketFailure
  read_timeout : SocketFailure
  write_timeout : SocketFailure
  not_text : ℕ → SocketFailure
  bad_json : SocketFailure

-- `simpleSocketConfig`; durations are nanoseconds.
pub record SocketConfig : Type 0 where
  pub inbound_buf_size : ℤ
  pub outbound_buf_size : ℤ
  pub flush_on_stop : Bool
  pub send_close_message : Bool
  pub wait_for_remote_close : Bool
  pub remote_close_wait_timeout : ℤ
  pub parent_ctx : List ℕ

abbrev pub default_config : SocketConfig
default_config = record {
  inbound_buf_size = pos 10;
  outbound_buf_size = pos 10;
  flush_on_stop = true;
  send_close_message = true;
  wait_for_remote_close = false;
  remote_close_wait_timeout = pos 60_000_000_000;
  parent_ctx = [];
}

-- The options `ssInboundBufSize` to `ssParentCtx`.
pub data SocketOption : Type 0 where
  with_inbound_buf : ℤ → SocketOption
  with_outbound_buf : ℤ → SocketOption
  with_flush : Bool → SocketOption
  with_close_message : Bool → SocketOption
  with_remote_close : Bool → SocketOption
  with_remote_timeout : ℤ → SocketOption
  with_parent : List ℕ → SocketOption

unfoldable pub apply_option : SocketOption → SocketConfig → SocketConfig
apply_option (with_inbound_buf n) c = record c { inbound_buf_size = n }
apply_option (with_outbound_buf n) c = record c { outbound_buf_size = n }
apply_option (with_flush b) c = record c { flush_on_stop = b }
apply_option (with_close_message b) c = record c { send_close_message = b }
apply_option (with_remote_close b) c = record c { wait_for_remote_close = b }
apply_option (with_remote_timeout t) c = record c { remote_close_wait_timeout = t }
apply_option (with_parent p) c = record c { parent_ctx = p }

unfoldable pub apply_options : List SocketOption → SocketConfig → SocketConfig
unfolding apply_option
apply_options [] c = c
apply_options (o ∷ os) c = apply_options os (apply_option o c)

-- A request is known by its caller's number.
pub record WriteRequest : Type 0 where
  pub caller : ℕ
  pub payload : List ℕ

pub record ReadResponse : Type 0 where
  pub message_type : ℕ
  pub content : List ℕ
  pub read_err : Option SocketFailure

pub data Frame : Type 0 where
  text_frame : List ℕ → Frame
  close_frame : Frame

-- Where `Run` stands: in its loop, waiting for the read pump, in the loop of the flush with so many
-- requests left, before the close message, in the wait for the remote end, or returned.
pub data Stage : Type 0 where
  running stopping_reads : Stage
  flushing : ℕ → Stage
  closing remote_wait returned : Stage

-- The channel that an answer goes to is kept with the answer.
pub record Socket : Type 0 where
  pub config : SocketConfig
  pub context : List ℕ
  pub outbound : List WriteRequest
  pub inbound : List ℕ
  pub stop : Bool
  pub stage : Stage
  pub wire : List Frame
  pub answers : List (WriteRequest × Option SocketFailure)
  pub reads : List (ℕ × ReadResponse)

-- `newSimpleSocket`.
unfoldable pub new_simple_socket : List SocketOption → Socket
unfolding apply_options
new_simple_socket opts =
    let cfg = apply_options opts default_config in
    record {
      config = cfg;
      context =
          if ltb 0 (length cfg.parent_ctx)
          then cfg.parent_ctx ++ codes ".simplesocket"
          else codes "simplesocket";
      outbound = [];
      inbound = [];
      stop = false;
      stage = running;
      wire = [];
      answers = [];
      reads = [];
    }

-- A write on the connection: the frame is on the wire unless the write has failed.
unfoldable pub put_frame : Option SocketFailure → Frame → List Frame → List Frame
put_frame none f wire = wire ++ (f ∷ [])
put_frame (some e) f wire = wire

-- `handleWrite` on the oldest request, and the stage after it.
unfoldable pub handle_write : List WriteRequest → Option SocketFailure → Stage → Socket → Socket
unfolding put_frame
handle_write [] outcome stage s = s
handle_write (r ∷ rest) outcome stage s = record s {
  outbound = rest;
  wire = put_frame outcome (text_frame r.payload) s.wire;
  answers = s.answers ++ ((r, outcome) ∷ []);
  stage = stage;
}

-- `handleRead` on the oldest request.
unfoldable pub handle_read : List ℕ → ReadResponse → Socket → Socket
handle_read [] r s = s
handle_read (c ∷ rest) r s = record s { inbound = rest; reads = s.reads ++ ((c, r) ∷ []) }

-- A caller puts a request into a channel, unless the channel is full and it has to wait.
unfoldable pub submit_write : WriteRequest → Socket → Socket
submit_write r s =
    if ltb (length s.outbound) (pos_part s.config.outbound_buf_size)
    then record s { outbound = s.outbound ++ (r ∷ []) }
    else s

unfoldable pub submit_read : ℕ → Socket → Socket
submit_read c s =
    if ltb (length s.inbound) (pos_part s.config.inbound_buf_size)
    then record s { inbound = s.inbound ++ (c ∷ []) }
    else s

-- The beginning of `close`: the number of messages to flush is read once.
unfoldable pub begin_close : Socket → Socket
begin_close s = record s {
  stage = if s.config.flush_on_stop then flushing (length s.outbound) else closing;
}

-- The close message and what follows it.
unfoldable pub send_close : Option SocketFailure → Socket → Socket
unfolding put_frame
send_close outcome s = record s {
  wire = if s.config.send_close_message then put_frame outcome close_frame s.wire else s.wire;
  stage = if s.config.wait_for_remote_close then remote_wait else returned;
}

pub data Event : Type 0 where
  write_request : WriteRequest → Event
  read_request : ℕ → Event
  write_out : Option SocketFailure → Event
  read_in : ReadResponse → Event
  stop_call : Event
  stop_taken : Event
  reads_stopped : Event
  flush_over : Event
  close_message : Option SocketFailure → Event
  remote_closed : Event

-- A step of `Run`, by its stage.
unfoldable pub dispatch : Stage → Event → Socket → Socket
unfolding handle_write handle_read begin_close send_close
dispatch running (write_out o) s = handle_write s.outbound o running s
dispatch running (read_in r) s = handle_read s.inbound r s
dispatch running stop_taken s = if s.stop then record s { stage = stopping_reads } else s
dispatch stopping_reads (read_in r) s = handle_read s.inbound r s
dispatch stopping_reads reads_stopped s = begin_close s
dispatch (flushing (suc k)) (write_out o) s = handle_write s.outbound o (flushing k) s
dispatch (flushing zero) flush_over s = record s { stage = closing }
dispatch closing (close_message o) s = send_close o s
dispatch remote_wait remote_closed s = record s { stage = returned }
dispatch _ _ s = s

-- A caller's event may come at any stage; an event that the stage does not take changes nothing.
unfoldable pub step : Socket → Event → Socket
unfolding submit_write submit_read dispatch
step s (write_request r) = submit_write r s
step s (read_request c) = submit_read c s
step s stop_call = record s { stop = true }
step s e = dispatch s.stage e s

unfoldable pub run : Socket → List Event → Socket
unfolding step
run s [] = s
run s (e ∷ es) = run (step s e) es

-- What `Write` returns: the answer, or none where the time is up before it.
unfoldable pub write_result : Option (Option SocketFailure) → Option SocketFailure
write_result (some e) = e
write_result none = some write_timeout

unfoldable pub response_of : Option SocketFailure → ReadResponse → Result SocketFailure (ℕ × List ℕ)
response_of none r = ok (r.message_type, r.content)
response_of (some e) r = err e

-- `Read`.
unfoldable pub read_result : Option ReadResponse → Result SocketFailure (ℕ × List ℕ)
unfolding response_of
read_result none = err read_timeout
read_result (some r) = response_of r.read_err r

-- `ReadWorkerMsg`, with the JSON decoder; a text message has the type 1.
unfoldable pub read_worker_msg :
    (List ℕ → Option WorkerMsg) → Option ReadResponse → Result SocketFailure WorkerMsg
unfolding read_result
read_worker_msg decode r = read_result r >>= λ m.
    if not (m.0 == 1)
    then err (not_text m.0)
    else elim (decode m.1) [ none ↦ err bad_json | some msg ↦ ok msg ]
