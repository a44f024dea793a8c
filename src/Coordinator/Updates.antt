-- ===== src/Coordinator/Updates.antt =====
-- The testing phase (`receiveTestingUpdates` and `logTestingProgress` of pkg/loadtest/coordinator.go).
use perpx_load_test.Base.{
  ℕ, suc, ◌+◌, ◌≤◌, ◌≡◌, refl, ap, inl, inr, Bool, true, false, not, ◌&&◌, str_eq, none, some, List,
  [], ◌∷◌, arith, is_some, Bool-cases, lookup,
}
use perpx_load_test.Base.Int.{ℤ, pos, negsuc, leb_ℤ, ◌≤ℤ◌}
use perpx_load_test.Protocol.{
  Failure, WorkerState, WorkerMsg, connected, accepted, rejected, testing, failed, completed,
  other_state,
}
use perpx_load_test.Coordinator.{Coordinator, unregister, Progress, going, done}
use perpx_load_test.Coordinator.Taken.{IsCounted}
use perpx_load_test.Coordinator.Tally.{IsTallied}
use perpx_load_test.Coordinator.Testing.{
  sum_values, write_stats, measured, log_testing_progress, TestEvent, update, leaving,
  progress_tick, stop_test, server_gone, Testing, track_message, after_count, complete_one,
  by_state, test_step,
}

-- How many of the events are updates in the state `completed`.
abbrev pub is_completed : WorkerState → ℕ
is_completed completed = 1
is_completed _ = 0

abbrev pub completed_by : TestEvent → ℕ
completed_by (update msg now) = is_completed msg.state
completed_by _ = 0

abbrev pub completions : List TestEvent → ℕ
completions [] = 0
completions (e ∷ es) = completed_by e + completions es

-- The totals, and the gauges that show them, are the sums over the maps of the workers' counts.
pub record IsTotalled (c : Coordinator) : Type 0 where
  pub txs : c.total_txs ≡ sum_values (pos 0) c.total_txs_per_worker
  pub bytes : c.total_bytes ≡ sum_values (pos 0) c.total_bytes_per_worker
  pub gauge : c.total_txs_metric ≡ c.total_txs
  pub byte_gauge : c.total_bytes_metric ≡ c.total_bytes

write_stats-same :
    (n : ℕ) (txs bytes elapsed : ℤ) (c : Coordinator)
    → IsTotalled c
    → IsTotalled (write_stats n txs bytes elapsed c)
      × ((write_stats n txs bytes elapsed c).coord_cfg ≡ c.coord_cfg)
unfolding write_stats
write_stats-same n txs bytes elapsed c v =
    elim (Bool-cases
      (leb_ℤ c.coord_cfg.expect_workers (pos n) && not (str_eq c.cfg.stats_output_file ""))) [
        | inl e ↦ rw e (
          record { txs = v.txs; bytes = v.bytes; gauge = v.gauge; byte_gauge = v.byte_gauge },
          refl,
        )
        | inr e ↦ rw e (v, refl)
      ]

pub log_testing_progress-IsTotalled :
    (now : ℤ) (n : ℕ) (c : Coordinator)
    → IsTotalled (log_testing_progress now n c)
      × ((log_testing_progress now n c).coord_cfg ≡ c.coord_cfg)
unfolding log_testing_progress measured
log_testing_progress-IsTotalled now n c =
    write_stats-same n _ _ _ _
      (record { txs = refl; bytes = refl; gauge = refl; byte_gauge = refl })

-- What one event does to a loop with `n` completions, of which it is one where `k` is 1.
pub record IsStep (expect : ℤ) (n k : ℕ) (r : Testing × Progress) : Type 0 where
  pub counted : r.0.completed_count ≤ n + k
  pub configured : r.0.coord.coord_cfg.expect_workers ≡ expect
  pub ended : r.1 ≡ done none → (expect ≤ℤ pos (n + k)) × IsTotalled r.0.coord

quiet :
    (t : Testing) (c : Coordinator) (n k : ℕ)
    → t.completed_count ≤ n
    → c.coord_cfg ≡ t.coord.coord_cfg
    → IsStep t.coord.coord_cfg.expect_workers n k (record t { coord = c }, going)
quiet t c n k h q = record {
  counted = omega arith;
  configured = ap (λ x. x.expect_workers) q;
  ended = λ z. cc;
}

fails :
    (t : Testing) (c : Coordinator) (n k : ℕ) (e : Failure)
    → t.completed_count ≤ n
    → c.coord_cfg ≡ t.coord.coord_cfg
    → IsStep t.coord.coord_cfg.expect_workers n k (record t { coord = c }, done (some e))
fails t c n k e h q = record {
  counted = omega arith;
  configured = ap (λ x. x.expect_workers) q;
  ended = λ z. cc;
}

more : (z : ℤ) (m n : ℕ) → leb_ℤ z (pos (suc m)) ≡ true → m ≤ n → z ≤ℤ pos (n + 1)
more z m n h k = ground arith

after_count-IsStep :
    (all : Bool) (now : ℤ) (t : Testing) (m n : ℕ)
    → t.completed_count ≡ suc m
    → m ≤ n
    → leb_ℤ t.coord.coord_cfg.expect_workers (pos (suc m)) ≡ all
    → IsStep t.coord.coord_cfg.expect_workers n 1 (after_count all now t)
unfolding after_count
after_count-IsStep true now t m n q h e =
    let (total, same) = log_testing_progress-IsTotalled now t.completed_count t.coord in
    record {
      counted = omega arith;
      configured = ap (λ x. x.expect_workers) same;
      ended = λ z. (more t.coord.coord_cfg.expect_workers m n e h, total);
    }
after_count-IsStep false now t m n q h e = record {
  counted = omega arith;
  configured = refl;
  ended = λ z. cc;
}

complete_one-IsStep :
    (now : ℤ) (t : Testing) (n : ℕ)
    → t.completed_count ≤ n
    → IsStep t.coord.coord_cfg.expect_workers n 1 (complete_one now t)
unfolding complete_one
complete_one-IsStep now t n h =
    after_count-IsStep (leb_ℤ t.coord.coord_cfg.expect_workers (pos (suc t.completed_count))) now
      (record t { completed_count = suc t.completed_count }) t.completed_count n refl h refl

by_state-IsStep :
    (s : WorkerState) (msg : WorkerMsg) (now : ℤ) (t : Testing) (n : ℕ)
    → t.completed_count ≤ n
    → IsStep t.coord.coord_cfg.expect_workers n (is_completed s) (by_state s msg now t)
unfolding by_state
by_state-IsStep testing msg now t n h = quiet t t.coord n 0 h refl
by_state-IsStep completed msg now t n h = complete_one-IsStep now t n h
by_state-IsStep failed msg now t n h = fails t t.coord n 0 msg.error h refl
by_state-IsStep connected msg now t n h = fails t t.coord n 0 _ h refl
by_state-IsStep accepted msg now t n h = fails t t.coord n 0 _ h refl
by_state-IsStep rejected msg now t n h = fails t t.coord n 0 _ h refl
by_state-IsStep (other_state s) msg now t n h = fails t t.coord n 0 _ h refl

pub test_step-IsStep :
    (t : Testing) (e : TestEvent) (n : ℕ)
    → t.completed_count ≤ n
    → IsStep t.coord.coord_cfg.expect_workers n (completed_by e) (test_step t e)
unfolding test_step track_message unregister
test_step-IsStep t (update msg now) n h =
    elim (Bool-cases (is_some (lookup msg.id t.coord.workers))) [
      | inl e ↦
          rw e
            (by_state-IsStep msg.state msg now (record t { coord = track_message msg t.coord }) n h)
      | inr e ↦ rw e (quiet t t.coord n (is_completed msg.state) h refl)
    ]
test_step-IsStep t (leaving id none) n h = quiet t _ n 0 h refl
test_step-IsStep t (leaving id (some e)) n h = fails t (unregister id t.coord) n 0 _ h refl
test_step-IsStep t (progress_tick now) n h =
    quiet t _ n 0 h (log_testing_progress-IsTotalled now t.completed_count t.coord).1
test_step-IsStep t stop_test n h = fails t t.coord n 0 _ h refl
test_step-IsStep t server_gone n h = fails t t.coord n 0 _ h refl

-- What holds of a loop that has taken events with `n` completions.
record IsLoop (expect : ℤ) (n : ℕ) (r : Testing × Progress) : Type 0 where
  within : r.0.completed_count ≤ n
  expecting : r.0.coord.coord_cfg.expect_workers ≡ expect
  at_end : r.1 ≡ done none → (expect ≤ℤ pos n) × IsTotalled r.0.coord

-- What holds where the testing phase of `b`, begun with some counts, has ended in `c` without an error.
pub record IsAllDone (b : Coordinator) (es : List TestEvent) (c : Coordinator) : Type 0 where
  pub enough : b.coord_cfg.expect_workers ≤ℤ pos (completions es)
  pub totalled : IsTotalled c
  pub tallied : IsTallied b es c
  pub counted : IsCounted c
  pub not_underway : c.test_underway_metric ≡ negsuc 0
