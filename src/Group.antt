-- ===== src/Group.antt =====
-- pkg/loadtest/transactor_group.go and the statistics of pkg/loadtest/stats.go: the transactors of one
-- load test. Which connections are refused, and which closing writes succeed, is given by functions of
-- a transactor's index. Transactors run one after another here: they share nothing but the maps of
-- counts, in which each has a key of its own.
pub mod Adding
pub mod Waiting
pub mod Totals
pub mod Examples
use perpx_load_test.Base.{
  ℕ, zero, suc, ◌+◌, ◌==◌, Bool, true, false, String, Option, none, some, List, [], ◌∷◌, ◌++◌,
  if◌then◌else◌, length,
}
use perpx_load_test.Base.Int.{ℤ, pos, pos_part, ltb_ℤ, add_int64, sub_int64}
use perpx_load_test.Config.{Config}
use perpx_load_test.Protocol.{Failure}
use perpx_load_test.Transactor.{
  Transactor, StopError, Rate, zero_rate, per, Event, cancelled, set_stop, close_conn,
  new_transactor,
}

-- A map with numbers as keys.
abbrev pub set_at : ℕ → ℤ → List (ℕ × ℤ) → List (ℕ × ℤ)
set_at k v [] = (k, v) ∷ []
set_at k v (e ∷ m) = let later = set_at k v m in if e.0 == k then (k, v) ∷ m else e ∷ later

abbrev pub at : ℕ → List (ℕ × ℤ) → Option ℤ
at k [] = none
at k (e ∷ m) = let later = at k m in if e.0 == k then some e.1 else later

pub record Group : Type 0 where
  pub transactors : List Transactor
  pub start_time : ℤ
  pub tx_counts : List (ℕ × ℤ)
  pub tx_bytes : List (ℕ × ℤ)
  pub progress_interval : ℤ
  pub has_callback : Bool
  pub reported : List (ℤ × ℤ)

unfoldable pub new_group : Group
new_group = record {
  transactors = [];
  start_time = pos 0;
  tx_counts = [];
  tx_bytes = [];
  progress_interval = pos 5_000_000_000;
  has_callback = false;
  reported = [];
}

unfoldable pub close_each : (ℕ → Bool) → ℕ → List Transactor → List Transactor
unfolding close_conn
close_each closes k [] = []
close_each closes k (t ∷ ts) = close_conn (closes k) t ∷ close_each closes (suc k) ts

-- `close`.
unfoldable pub close_all : (ℕ → Bool) → Group → Group
unfolding close_each
close_all closes g = record g { transactors = close_each closes 0 g.transactors }

-- A new transactor reports its progress under its index.
unfoldable pub numbered : Config → ℕ → Transactor
unfolding new_transactor
numbered cfg id = record (new_transactor cfg) { progress_callback = some id }

-- `Add`, by the error of `NewTransactor`.
unfoldable pub add : Option Failure → (ℕ → Bool) → Config → Group → Group × Option Failure
unfolding close_all numbered
add (some e) closes cfg g = (close_all closes g, some e)
add none closes cfg g =
    (record g { transactors = g.transactors ++ (numbered cfg (length g.transactors) ∷ []) }, none)

unfoldable pub and_then :
    Group × Option Failure → (Group → Group × Option Failure) → Group × Option Failure
and_then (g, some e) k = (g, some e)
and_then (g, none) k = k g

-- The connections to one endpoint.
unfoldable pub add_n :
    (ℕ → Option Failure) → (ℕ → Bool) → Config → ℕ → Group → Group × Option Failure
unfolding add and_then
add_n refused closes cfg zero g = (g, none)
add_n refused closes cfg (suc n) g =
    and_then (add (refused (length g.transactors)) closes cfg g)
      (λ g'. add_n refused closes cfg n g')

unfoldable pub add_each :
    (ℕ → Option Failure) → (ℕ → Bool) → Config → List String → Group → Group × Option Failure
unfolding add_n and_then
add_each refused closes cfg [] g = (g, none)
add_each refused closes cfg (endpoint ∷ es) g =
    and_then (add_n refused closes cfg (pos_part cfg.connections) g)
      (λ g'. add_each refused closes cfg es g')

-- `AddAll`.
unfoldable pub add_all : (ℕ → Option Failure) → (ℕ → Bool) → Config → Group → Group × Option Failure
unfolding add_each
add_all refused closes cfg g = add_each refused closes cfg cfg.endpoints g

unfoldable pub set_progress_callback : ℤ → Group → Group
set_progress_callback interval g = record g { progress_interval = interval; has_callback = true }

-- `Start`, with the events that each transactor's send loop will take.
unfoldable pub run_each : List (List Event) → List Transactor → List Transactor
run_each [] ts = ts
run_each (es ∷ rest) [] = []
run_each (es ∷ rest) (t ∷ ts) = perpx_load_test.Transactor.run t es ∷ run_each rest ts

unfoldable pub start : ℤ → List (List Event) → Group → Group
unfolding run_each
start now events g = record g { transactors = run_each events g.transactors; start_time = now }

unfoldable pub cancel_each : List Transactor → List Transactor
unfolding set_stop
cancel_each [] = []
cancel_each (t ∷ ts) = set_stop (some cancelled) t ∷ cancel_each ts

-- `Cancel`.
unfoldable pub cancel : Group → Group
unfolding cancel_each
cancel g = record g { transactors = cancel_each g.transactors }

-- `Cancel` while `Wait` has read the results of some transactors: an error that is set on such a one
-- afterwards reaches no one, so that it is left out. Those with `true` are still to be read.
unfoldable pub cancel_unread_each : List Bool → List Transactor → List Transactor
unfolding set_stop
cancel_unread_each [] ts = ts
cancel_unread_each (b ∷ bs) [] = []
cancel_unread_each (true ∷ bs) (t ∷ ts) = set_stop (some cancelled) t ∷ cancel_unread_each bs ts
cancel_unread_each (false ∷ bs) (t ∷ ts) = t ∷ cancel_unread_each bs ts

unfoldable pub cancel_unread : List Bool → Group → Group
unfolding cancel_unread_each
cancel_unread unread g = record g { transactors = cancel_unread_each unread g.transactors }

-- The transactors go on with the events that come after.
unfoldable pub resume : List (List Event) → Group → Group
unfolding run_each
resume events g = record g { transactors = run_each events g.transactors }

-- `trackTransactorProgress`.
unfoldable pub track : ℕ → ℤ → ℤ → Group → Group
track id count byte_count g = record g {
  tx_counts = set_at id count g.tx_counts;
  tx_bytes = set_at id byte_count g.tx_bytes;
}

-- What the goroutines of `Wait` track once their transactors are done.
unfoldable pub track_each : ℕ → List Transactor → Group → Group
unfolding track
track_each k [] g = g
track_each k (t ∷ ts) g = track_each (suc k) ts (track k t.tx_count t.tx_bytes g)

unfoldable pub earlier : Option StopError → Option StopError → Option StopError
earlier (some e) later = some e
earlier none later = later

unfoldable pub first_failure : List Transactor → Option StopError
unfolding earlier
first_failure [] = none
first_failure (t ∷ ts) = earlier (perpx_load_test.Transactor.wait t) (first_failure ts)

-- `Wait`: the results are collected until the first error. Which error that is depends on the order
-- in which the transactors end; here it is the order of the group.
unfoldable pub wait : Group → Group × Option StopError
unfolding track_each first_failure
wait g = (track_each 0 g.transactors g, first_failure g.transactors)

-- The sum over a map of counts.
unfoldable pub sum_at : ℤ → List (ℕ × ℤ) → ℤ
sum_at acc [] = acc
sum_at acc (e ∷ m) = sum_at (add_int64 acc e.1) m

unfoldable pub total_txs : Group → ℤ
unfolding sum_at
total_txs g = sum_at (pos 0) g.tx_counts

unfoldable pub total_bytes : Group → ℤ
unfolding sum_at
total_bytes g = sum_at (pos 0) g.tx_bytes

unfoldable pub report_progress : Group → Group
unfolding total_txs total_bytes
report_progress g =
    if g.has_callback then record g { reported = (total_txs g, total_bytes g) ∷ g.reported } else g

-- `AggregateStats`, its rates as exact quotients; the time is in nanoseconds.
pub record AggregateStats : Type 0 where
  pub stats_txs : ℤ
  pub stats_time : ℤ
  pub stats_bytes : ℤ
  pub avg_tx_rate : Rate
  pub avg_data_rate : Rate
  pub avg_tx_size : Rate

-- `Compute`.
unfoldable pub compute : AggregateStats → AggregateStats
compute s = record s {
  avg_tx_rate = if ltb_ℤ (pos 0) s.stats_time then per s.stats_txs s.stats_time else zero_rate;
  avg_data_rate = if ltb_ℤ (pos 0) s.stats_time then per s.stats_bytes s.stats_time else zero_rate;
  avg_tx_size = if ltb_ℤ (pos 0) s.stats_txs then per s.stats_bytes s.stats_txs else zero_rate;
}

-- The statistics that `WriteAggregateStats` writes.
unfoldable pub aggregate_stats : ℤ → Group → AggregateStats
unfolding compute total_txs total_bytes
aggregate_stats now g = compute (record {
  stats_txs = total_txs g;
  stats_time = sub_int64 now g.start_time;
  stats_bytes = total_bytes g;
  avg_tx_rate = zero_rate;
  avg_data_rate = zero_rate;
  avg_tx_size = zero_rate;
})
