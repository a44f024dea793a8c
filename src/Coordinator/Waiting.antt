-- ===== src/Coordinator/Waiting.antt =====
-- How the wait for the workers ends (`waitForWorkers` of pkg/loadtest/coordinator.go).
use perpx_load_test.Base.{
  ℕ, ◌≡◌, sym, ap, ◌∙◌, inl, inr, true, String, Option, none, List, [], ◌∷◌, ◌++◌, arith, length,
  Bool-cases,
}
use perpx_load_test.Base.Int.{ℤ, pos, leb_ℤ, ◌≤ℤ◌}
use perpx_load_test.Config.{Config, CoordinatorConfig}
use perpx_load_test.Protocol.{Failure}
use perpx_load_test.Coordinator.{
  Coordinator, is_full, register, begin_if_full, start_load_test, WaitEvent, register_request,
  unregister_request, connect_timeout, stop_signal, server_stopped, answered, after_start, Progress,
  going, done, wait_step, wait_on, wait_for_workers, new_coordinator, waiting_for_workers,
}
use perpx_load_test.Coordinator.Registry.{IsRegistry, register-IsRegistry, unregister-IsRegistry}
use perpx_load_test.Coordinator.Start.{
  start_calls, record_call-IsRegistry, start_each-IsRegistry, start_each-same, start_each-calls,
  IsStarted,
}

begin_if_full-IsRegistry :
    (outcome : ℕ → Option Failure) (c : Coordinator)
    → IsRegistry c
    → IsRegistry (begin_if_full outcome c).0
unfolding begin_if_full start_load_test after_start
begin_if_full-IsRegistry outcome c v = elim (Bool-cases (is_full c)) [
  | inl e ↦ rw e (start_each-IsRegistry outcome c.workers c v)
  | inr e ↦ rw e v
]

full_of_bounds : (z : ℤ) (n : ℕ) → leb_ℤ z (pos n) ≡ true → pos n ≤ℤ z → pos n ≡ z
full_of_bounds z n h k = ground arith

start_load_test-IsStarted :
    (outcome : ℕ → Option Failure) (c : Coordinator)
    → IsRegistry c
    → is_full c ≡ true
    → (start_load_test outcome c).1 ≡ none
    → IsStarted (start_load_test outcome c).0
unfolding start_load_test
start_load_test-IsStarted outcome c v full h =
    let (ws, cs) = start_each-same outcome c.workers c in
    record {
      all_there =
          ap (λ w. pos (length w)) ws
          ∙ full_of_bounds c.coord_cfg.expect_workers (length c.workers) full v.bounded
          ∙ ap (λ k. k.expect_workers) (sym cs);
      all_told = (
        c.calls,
        start_each-calls outcome c.workers c h ∙ ap (λ w. c.calls ++ start_calls w) (sym ws),
      );
    }

done_of : (e : Option Failure) → done e ≡ done none → e ≡ none
done_of e h = cc

begin_if_full-IsStarted :
    (outcome : ℕ → Option Failure) (c : Coordinator)
    → IsRegistry c
    → (begin_if_full outcome c).1 ≡ done none
    → IsStarted (begin_if_full outcome c).0
unfolding begin_if_full after_start
begin_if_full-IsStarted outcome c v h = elim (Bool-cases (is_full c)) [
  | inl e ↦ rw e (start_load_test-IsStarted outcome c v e (done_of _ (rw e at h)))
  | inr e ↦ let h' = rw e at h in cc
]

answered-IsRegistry :
    (id : String) (handle : ℕ) (c : Coordinator)
    → IsRegistry c
    → IsRegistry (answered handle (register id handle c))
unfolding answered
answered-IsRegistry id handle c v = record_call-IsRegistry _ _ (register-IsRegistry id handle c v)

pub wait_step-IsRegistry :
    (c : Coordinator) (e : WaitEvent) → IsRegistry c → IsRegistry (wait_step c e).0
unfolding wait_step
wait_step-IsRegistry c (register_request id handle outcome) v =
    begin_if_full-IsRegistry outcome _ (answered-IsRegistry id handle c v)
wait_step-IsRegistry c (unregister_request id e) v = unregister-IsRegistry id c v
wait_step-IsRegistry c connect_timeout v = v
wait_step-IsRegistry c stop_signal v = v
wait_step-IsRegistry c server_stopped v = v

wait_step-IsStarted :
    (c : Coordinator) (e : WaitEvent)
    → IsRegistry c
    → (wait_step c e).1 ≡ done none
    → IsStarted (wait_step c e).0
unfolding wait_step
wait_step-IsStarted c (register_request id handle outcome) v h =
    begin_if_full-IsStarted outcome _ (answered-IsRegistry id handle c v) h
wait_step-IsStarted c (unregister_request id e) v h = cc
wait_step-IsStarted c connect_timeout v h = cc
wait_step-IsStarted c stop_signal v h = cc
wait_step-IsStarted c server_stopped v h = cc

-- What holds of a state of the waiting loop.
pub record IsWaited (p : Coordinator × Progress) : Type 0 where
  pub registry : IsRegistry p.0
  pub started : p.1 ≡ done none → IsStarted p.0

wait_on-IsWaited :
    (es : List WaitEvent) (p : Coordinator × Progress) → IsWaited p → IsWaited (wait_on p es)
unfolding wait_on
wait_on-IsWaited es (c, done e) v = v
wait_on-IsWaited [] (c, going) v = v
wait_on-IsWaited (e ∷ es) (c, going) v = wait_on-IsWaited es (wait_step c e) (record {
  registry = wait_step-IsRegistry c e v.registry;
  started = wait_step-IsStarted c e v.registry;
})

pub new_coordinator-IsRegistry :
    (cfg : Config) (coord_cfg : CoordinatorConfig)
    → pos 0 ≤ℤ coord_cfg.expect_workers
    → IsRegistry (new_coordinator cfg coord_cfg)
unfolding new_coordinator
new_coordinator-IsRegistry cfg coord_cfg h = record {
  distinct = tt;
  bounded = h;
  txs_known = λ id q. q;
  bytes_known = λ id q. q;
}

-- Whatever the workers and the server do while a coordinator that expects no negative number of
-- workers waits for them, no ID stands for two workers, there are never more workers than expected,
-- and each has its two totals; and where the wait ends without an error, exactly the expected number
-- of workers is there, and the last calls told each of them once, in the order of the map, to begin.
pub wait_for_workers-IsWaited :
    (cfg : Config) (coord_cfg : CoordinatorConfig) (es : List WaitEvent)
    → pos 0 ≤ℤ coord_cfg.expect_workers
    → IsWaited (wait_for_workers (new_coordinator cfg coord_cfg) es)
unfolding wait_for_workers new_coordinator
wait_for_workers-IsWaited cfg coord_cfg es h =
    let v = new_coordinator-IsRegistry cfg coord_cfg h in
    wait_on-IsWaited es
      (record (new_coordinator cfg coord_cfg) { state_metric = waiting_for_workers }, going)
      (record {
        registry = record {
          distinct = tt;
          bounded = h;
          txs_known = v.txs_known;
          bytes_known = v.bytes_known;
        };
        started = λ q. cc;
      })
