-- ===== src/Tui.antt =====
-- pkg/loadtest/tui.go: the terminal UI of a standalone test. What a tick reads from the group under its
-- lock comes as a snapshot; what is printed is a frame of values, whose padding and rounding for the
-- terminal belong to Go's `fmt`. Rates are exact quotients, times are nanoseconds.
pub mod Sums
pub mod Table
pub mod Stopping
pub mod Examples
use perpx_load_test.Base.{
  ℕ, zero, suc, ◌-◌, ◌*◌, ◌==◌, Bool, true, false, String, Option, none, some, List, [], ◌∷◌, ◌++◌,
  map, if◌then◌else◌, ltb, leb, length, take, lookup, insert, get_or, codes,
}
use perpx_load_test.Base.Int.{ℤ, pos, negsuc, ltb_ℤ, eqb_ℤ, wrap64, add_int64, sub_int64}
use perpx_load_test.Config.{Config}
use perpx_load_test.Transactor.{Rate, per}
use perpx_load_test.Group.{at}

-- `trimForTable`, of the bytes of a text.
unfoldable pub trim_for_table : List ℕ → ℕ → List ℕ
trim_for_table s max =
    if leb (length s) max
    then s
    else if leb max 3
    then take max s
    else take (max - 3) s ++ (b'.' ∷ b'.' ∷ b'.' ∷ [])

-- `epAgg`.
pub record Agg : Type 0 where
  pub tx : ℤ
  pub bytes : ℤ

-- What a tick reads: the remote addresses of the transactors, and the maps and the start of the group.
pub record Snapshot : Type 0 where
  pub addrs : List String
  pub tx_counts : List (ℕ × ℤ)
  pub tx_bytes : List (ℕ × ℤ)
  pub start_time : ℤ

-- A value of a map, where a missing key reads as the zero value.
abbrev pub value_or_zero : Option ℤ → ℤ
value_or_zero none = pos 0
value_or_zero (some z) = z

abbrev pub agg_or_zero : Option Agg → Agg
agg_or_zero none = record { tx = pos 0; bytes = pos 0 }
agg_or_zero (some a) = a

-- The counts of the transactor `id` are added to its endpoint.
unfoldable pub add_counts : String → ℤ → ℤ → List (String × Agg) → List (String × Agg)
add_counts ep txs bytes by_ep =
    let agg = agg_or_zero (lookup ep by_ep) in
    insert ep (record { tx = add_int64 agg.tx txs; bytes = add_int64 agg.bytes bytes }) by_ep

unfoldable pub aggregate :
    List String → List (ℕ × ℤ) → List (ℕ × ℤ) → List (String × Agg) → List (String × Agg)
unfolding add_counts
aggregate addrs tx_bytes [] by_ep = by_ep
aggregate addrs tx_bytes ((id, txs) ∷ counts) by_ep =
    aggregate addrs tx_bytes counts
      (add_counts (get_or addrs id "unknown") txs (value_or_zero (at id tx_bytes)) by_ep)

-- `totalTxs` and `totalBytes`.
unfoldable pub sum_aggs : Agg → List (String × Agg) → Agg
sum_aggs acc [] = acc
sum_aggs acc (e ∷ m) =
    sum_aggs (record { tx = add_int64 acc.tx e.1.tx; bytes = add_int64 acc.bytes e.1.bytes }) m

-- The order of `sort.Strings`.
abbrev pub leb_text : List ℕ → List ℕ → Bool
leb_text [] t = true
leb_text (x ∷ s) [] = false
leb_text (x ∷ s) (y ∷ t) =
    let later = leb_text s t in if ltb x y then true else if x == y then later else false

abbrev pub leb_key : String × Agg → String × Agg → Bool
leb_key a b = leb_text (codes a.0) (codes b.0)

unfoldable pub insert_sorted : String × Agg → List (String × Agg) → List (String × Agg)
insert_sorted e [] = e ∷ []
insert_sorted e (x ∷ xs) =
    let later = insert_sorted e xs in if leb_key e x then e ∷ x ∷ xs else x ∷ later

-- The endpoints in the order of the table, with what has been summed up for them.
unfoldable pub sorted : List (String × Agg) → List (String × Agg)
unfolding insert_sorted
sorted [] = []
sorted (e ∷ m) = insert_sorted e (sorted m)

-- A line of the table, and all that a tick prints.
pub record Row : Type 0 where
  pub name : List ℕ
  pub row_txs : ℤ
  pub row_tx_rate : Rate
  pub row_byte_rate : Rate

pub record Frame : Type 0 where
  pub elapsed : ℤ
  pub connections : ℤ
  pub total_txs : ℤ
  pub inst_txs : Rate
  pub inst_bytes : Rate
  pub rows : List Row

-- The variables of the goroutine: the last snapshot.
pub record Last : Type 0 where
  pub last_time : ℤ
  pub last_total_txs : ℤ
  pub last_total_bytes : ℤ
  pub last_by_ep : List (String × ℤ)
  pub last_by_ep_bytes : List (String × ℤ)

unfoldable pub first_last : ℤ → Last
first_last now = record {
  last_time = now;
  last_total_txs = pos 0;
  last_total_bytes = pos 0;
  last_by_ep = [];
  last_by_ep_bytes = [];
}

-- `dt`, which is a second where the clock has not gone on.
unfoldable pub time_step : ℤ → ℤ → ℤ
time_step now before =
    let dt = sub_int64 now before in if ltb_ℤ (pos 0) dt then dt else pos 1_000_000_000

-- `cfg.Connections*len(cfg.Endpoints)`.
unfoldable pub times : ℤ → ℕ → ℤ
unfolding wrap64
times (pos n) k = wrap64 (pos (n * k))
times (negsuc n) zero = pos 0
times (negsuc n) (suc k) = wrap64 (negsuc (suc n * suc k - 1))

unfoldable pub row_of : ℤ → Last → String × Agg → Row
unfolding trim_for_table
row_of dt l (ep, agg) = record {
  name = trim_for_table (codes ep) 42;
  row_txs = agg.tx;
  row_tx_rate = per (sub_int64 agg.tx (value_or_zero (lookup ep l.last_by_ep))) dt;
  row_byte_rate = per (sub_int64 agg.bytes (value_or_zero (lookup ep l.last_by_ep_bytes))) dt;
}

-- What a tick shows and keeps, of the endpoints' sums and their totals.
unfoldable pub frame_of : Config → ℤ → Snapshot → Last → List (String × Agg) → Agg → Frame
unfolding row_of sorted time_step times
frame_of cfg now s l by_ep total =
    let dt = time_step now l.last_time in
    record {
      elapsed = if eqb_ℤ s.start_time (pos 0) then pos 0 else sub_int64 now s.start_time;
      connections = times cfg.connections (length cfg.endpoints);
      total_txs = total.tx;
      inst_txs = per (sub_int64 total.tx l.last_total_txs) dt;
      inst_bytes = per (sub_int64 total.bytes l.last_total_bytes) dt;
      rows = map (row_of dt l) (sorted by_ep);
    }

unfoldable pub last_of : ℤ → List (String × Agg) → Agg → Last
last_of now by_ep total = record {
  last_time = now;
  last_total_txs = total.tx;
  last_total_bytes = total.bytes;
  last_by_ep = map (λ e. (e.0, e.1.tx)) by_ep;
  last_by_ep_bytes = map (λ e. (e.0, e.1.bytes)) by_ep;
}

abbrev pub by_endpoint : Snapshot → List (String × Agg)
by_endpoint s = aggregate s.addrs s.tx_bytes s.tx_counts []

abbrev pub total_of : Snapshot → Agg
total_of s = sum_aggs (record { tx = pos 0; bytes = pos 0 }) (by_endpoint s)

-- A tick of the goroutine.
unfoldable pub draw : Config → ℤ → Snapshot → Last → Last × Frame
unfolding aggregate sum_aggs frame_of last_of
draw cfg now s l =
    (last_of now (by_endpoint s) (total_of s), frame_of cfg now s l (by_endpoint s) (total_of s))

-- What the terminal is sent, in order.
pub data Output : Type 0 where
  hide_cursor show_cursor clear_screen : Output
  shown : Frame → Output

-- The UI: its two channels, closed or not, the goroutine's variables, the terminal, and how many calls
-- of the function that stops it wait for the goroutine.
pub record Tui : Type 0 where
  pub stop_closed : Bool
  pub stopped : Bool
  pub last : Last
  pub terminal : List Output
  pub waiting : ℕ

-- `startStandaloneTUI`.
unfoldable pub start_standalone_tui : ℤ → Tui
unfolding first_last
start_standalone_tui now = record {
  stop_closed = false;
  stopped = false;
  last = first_last now;
  terminal = hide_cursor ∷ clear_screen ∷ [];
  waiting = 0;
}

-- What happens to the UI: a tick, which `select` may still take when the channel has been closed; the
-- goroutine that takes the closed channel and returns; a call of the function that stops the UI, which
-- closes the channel or finds it closed, and then waits; and such a call that goes on.
pub data Event : Type 0 where
  tick : ℤ → Snapshot → Event
  goroutine_returns : Event
  stop_call : Event
  call_goes_on : Event

unfoldable pub drawn : Last × Frame → Tui → Tui
drawn (l, f) u = record u { last = l; terminal = u.terminal ++ (clear_screen ∷ shown f ∷ []) }

-- The end of the function that stops the UI, of a call that is waiting.
unfoldable pub restore : ℕ → Tui → Tui
restore zero u = u
restore (suc n) u = record u {
  terminal = u.terminal ++ (clear_screen ∷ show_cursor ∷ []);
  waiting = n;
}

-- The wait `<-stopped` goes on only once the goroutine has returned.
unfoldable pub after_stopped : Tui → Tui
unfolding restore
after_stopped u = if u.stopped then restore u.waiting u else u

unfoldable pub step : Config → Tui → Event → Tui
unfolding draw drawn after_stopped
step cfg u (tick now s) = if u.stopped then u else drawn (draw cfg now s u.last) u
step cfg u goroutine_returns = if u.stop_closed then record u { stopped = true } else u
step cfg u stop_call = record u { stop_closed = true; waiting = suc u.waiting }
step cfg u call_goes_on = after_stopped u

unfoldable pub run : Config → Tui → List Event → Tui
unfolding step
run cfg u [] = u
run cfg u (e ∷ es) = run cfg (step cfg u e) es
