-- ===== src/Transactor.antt =====
-- pkg/loadtest/transactor.go: one connection to an RPC endpoint and the loop that sends
-- transactions on it. The client and the connection are the environment: what `GenerateTx` and a
-- write return, and how long a batch has taken, come with each event. Times and durations are
-- nanoseconds; a rate is kept as the exact quotient that the program rounds to a `float64`.
pub mod Batches
pub mod Connection
pub mod Opening
pub mod Limit
pub mod Ticks
pub mod Shutdown
pub mod Turns
pub mod Progress
pub mod Overrun
pub mod Examples
use perpx_load_test.Base.{
  ℕ, zero, suc, ◌+◌, ◌-◌, ◌*◌, Bool, true, false, ◌&&◌, Option, none, some, List, [], ◌∷◌, ◌++◌,
  if◌then◌else◌, ltb,
}
use perpx_load_test.Base.Int.{
  ℤ, pos, negsuc, pos_part, ltb_ℤ, leb_ℤ, eqb_ℤ, wrap64, add_int64, sub_int64,
}
use perpx_load_test.Config.{Config}

-- Why a transactor stops: an error of the client, of a write, or `Cancel`.
pub data StopError : Type 0 where
  generate_error : ℕ → StopError
  write_error : ℕ → StopError
  ping_error : ℕ → StopError
  cancelled : StopError

-- A number of transactions, or of bytes, per nanoseconds.
pub data Rate : Type 0 where
  zero_rate : Rate
  per : ℤ → ℤ → Rate

-- What was written on the connection.
pub data Frame : Type 0 where
  tx : ℕ → Frame
  ping : Frame
  close : Frame

-- Where `sendLoop` stands: before the test of the limit, in the `select`, before the test of the
-- stop flag, or returned.
pub data Phase : Type 0 where
  at_limit at_select at_stop returned : Phase

pub record Transactor : Type 0 where
  pub config : Config
  pub start_time : ℤ
  pub tx_count : ℤ
  pub tx_bytes : ℤ
  pub tx_rate : Rate
  pub progress_callback : Option ℕ
  pub reported : List (ℕ × ℤ × ℤ)
  pub stop : Bool
  pub stop_err : Option StopError
  pub frames : List Frame
  pub phase : Phase

-- One round of the batch loop: `GenerateTx` or the write fails, or a transaction of some length is
-- written and the batch has taken some time by then.
pub data Attempt : Type 0 where
  generate_failed : ℕ → Attempt
  write_failed : ℕ → Attempt
  written : ℕ → ℤ → Attempt

-- The variables of the batch loop; `batch_frames` holds the newest transaction first.
pub record Batch : Type 0 where
  pub sent : ℕ
  pub sent_bytes : ℤ
  pub batch_frames : List Frame
  pub batch_err : Option StopError

-- time.Duration(seconds) * time.Second.
unfoldable pub seconds : ℤ → ℤ
unfolding wrap64
seconds (pos n) = wrap64 (pos (n * 1_000_000_000))
seconds (negsuc n) = wrap64 (negsuc (suc n * 1_000_000_000 - 1))

abbrev add_frame : Batch → ℕ → Batch
add_frame b len = record b {
  sent_bytes = add_int64 b.sent_bytes (pos len);
  batch_frames = tx len ∷ b.batch_frames;
}

-- `for ; sent < toSend; sent++`, over the rounds that are left. `break` skips the `sent++`.
unfoldable pub batch_loop : ℕ → (ℕ → Attempt) → ℤ → Batch → Batch
batch_loop zero attempts period b = b
batch_loop (suc left) attempts period b = elim (attempts b.sent) [
  | generate_failed e ↦ record b { batch_err = some (generate_error e) }
  | write_failed e ↦ record b { batch_err = some (write_error e) }
  | written len elapsed ↦ elim (leb_ℤ period elapsed) [
    | true ↦ add_frame b len
    | false ↦ batch_loop left attempts period (record (add_frame b len) { sent = suc b.sent })
  ]
]

abbrev pub empty_batch : Batch
empty_batch = record { sent = 0; sent_bytes = pos 0; batch_frames = []; batch_err = none }

unfoldable pub track_start_time : ℤ → Transactor → Transactor
track_start_time now t = record t { start_time = now; tx_rate = zero_rate }

unfoldable pub track_sent_txs : ℕ → ℤ → ℤ → Transactor → Transactor
track_sent_txs count byte_count now t =
    let elapsed = sub_int64 now t.start_time in
    let total = add_int64 t.tx_count (pos count) in
    record t {
      tx_count = total;
      tx_bytes = add_int64 t.tx_bytes byte_count;
      tx_rate = if ltb_ℤ (pos 0) elapsed then per total elapsed else zero_rate;
    }

-- How many transactions the next batch may send.
unfoldable pub to_send : Transactor → ℤ
to_send t =
    let limit = t.config.count in
    if ltb_ℤ (pos 0) limit && ltb_ℤ limit (add_int64 t.tx_count t.config.rate)
    then sub_int64 limit t.tx_count
    else t.config.rate

-- The batch that a call of `sendTransactions` sends.
unfoldable pub send_batch : (ℕ → Attempt) → Transactor → Batch
unfolding batch_loop to_send
send_batch attempts t =
    batch_loop (pos_part (to_send t)) attempts (seconds t.config.send_period) empty_batch

unfoldable pub set_stop : Option StopError → Transactor → Transactor
set_stop none t = record t { stop = true }
set_stop (some e) t = record t { stop = true; stop_err = some e }

pub stop_on : Option StopError → Transactor → Transactor
unfolding set_stop
stop_on none t = t
stop_on (some e) t = set_stop (some e) t

-- `sendTransactions`, begun and ended at the given times, and its error. The deferred
-- `trackSentTxs` runs on every path.
unfoldable pub send_transactions :
    ℤ → ℤ → (ℕ → Attempt) → Transactor → Transactor × Option StopError
unfolding send_batch track_start_time track_sent_txs
send_transactions begun ended attempts t =
    let b = send_batch attempts t in
    let started = if eqb_ℤ t.tx_count (pos 0) then track_start_time begun t else t in
    (
      track_sent_txs b.sent b.sent_bytes ended
          (record started { frames = b.batch_frames ++ t.frames }),
      b.batch_err,
    )

pub report_to : Option ℕ → Transactor → Transactor
report_to none t = t
report_to (some id) t = record t { reported = (id, t.tx_count, t.tx_bytes) ∷ t.reported }

unfoldable pub report_progress : Transactor → Transactor
unfolding report_to
report_progress t = report_to t.progress_callback t

-- What the `select` of `sendLoop` receives.
pub data Tick : Type 0 where
  send_tick : ℤ → ℤ → (ℕ → Attempt) → Tick
  progress_tick : Tick
  ping_tick : Option ℕ → Tick
  time_limit : Tick

ping_result : Option ℕ → Transactor → Transactor
unfolding set_stop
ping_result none t = record t { frames = ping ∷ t.frames }
ping_result (some e) t = set_stop (some (ping_error e)) t

unfoldable pub handle_tick : Tick → Transactor → Transactor
unfolding send_transactions report_progress ping_result stop_on
handle_tick (send_tick begun ended attempts) t =
    let (t', e) = send_transactions begun ended attempts t in stop_on e t'
handle_tick progress_tick t = report_progress t
handle_tick (ping_tick outcome) t = ping_result outcome t
handle_tick time_limit t = set_stop none t

unfoldable pub limit_reached : Transactor → Bool
limit_reached t = ltb_ℤ (pos 0) t.config.count && leb_ℤ t.config.count t.tx_count

-- `close`, whose write may fail: then nothing is on the wire.
unfoldable pub close_conn : Bool → Transactor → Transactor
close_conn true t = record t { frames = close ∷ t.frames }
close_conn false t = t

-- A move of the send loop, or a `Cancel` by another goroutine, which may come between any two.
pub data Event : Type 0 where
  check_limit : Event
  fire : Tick → Event
  check_stop : Bool → Event
  cancel : Event

pub dispatch : Phase → Event → Transactor → Transactor
unfolding handle_tick set_stop close_conn limit_reached
dispatch phase cancel t = set_stop (some cancelled) t
dispatch at_limit check_limit t = record (if limit_reached t then set_stop none t else t) {
  phase = at_select;
}
dispatch at_select (fire tick) t = record (handle_tick tick t) { phase = at_stop }
dispatch at_stop (check_stop close_written) t =
    if t.stop
    then record (close_conn close_written t) { phase = returned }
    else record t { phase = at_limit }
dispatch _ _ t = t

-- An event that does not fit the phase does not happen.
unfoldable pub step : Transactor → Event → Transactor
unfolding dispatch
step t e = dispatch t.phase e t

unfoldable pub run : Transactor → List Event → Transactor
run t [] = t
run t (e ∷ es) = run (step t e) es

-- `NewTransactor` once the connection stands.
unfoldable pub new_transactor : Config → Transactor
new_transactor c = record {
  config = c;
  start_time = pos 0;
  tx_count = pos 0;
  tx_bytes = pos 0;
  tx_rate = zero_rate;
  progress_callback = none;
  reported = [];
  stop = false;
  stop_err = none;
  frames = [];
  phase = at_limit;
}

-- `Wait`, once both goroutines have returned.
unfoldable pub wait : Transactor → Option StopError
wait t = t.stop_err
