-- ===== src/Commands/Exits.antt =====
-- What the exit code 0 of a command says (pkg/loadtest/cli.go).
use perpx_load_test.Base.{ℕ, ◌≡◌, refl, Bool, String, Option, none, some, Result, ok, err}
use perpx_load_test.Config.{ConfigError, Registry, WorkerConfig, validate_worker}
use perpx_load_test.Coordinator.{Progress, going, done}
use perpx_load_test.Worker.{Worker, new_worker}
use perpx_load_test.Worker.Reports.{IsReported, run-IsReported}
use perpx_load_test.Commands.{returned_code, checked_run, run_worker, worker_command}

returned_zero : (p : Progress) → returned_code p ≡ some 0 → p ≡ done none
unfolding returned_code
returned_zero going h = cc
returned_zero (done none) h = refl
returned_zero (done (some e)) h = cc

checked_zero {ℓ} :
    {E : Type ℓ} (o : Option E) (code : Option ℕ)
    → checked_run o code ≡ some 0
    → (o ≡ none) × (code ≡ some 0)
unfolding checked_run
checked_zero none code h = (refl, h)
checked_zero (some e) code h = cc

module _ (is_lower is_digit : ℕ → Bool) (made_id : String) where
  run_worker_zero :
      (reg : Registry) (s : perpx_load_test.Worker.Surroundings) (r : Result ConfigError Worker)
      → run_worker is_lower is_digit made_id reg s r ≡ some 0
      → (w : Worker) × (r ≡ ok w) × IsReported reg (perpx_load_test.Worker.run reg s w).0
  unfolding run_worker
  run_worker_zero reg s (err e) h = cc
  run_worker_zero reg s (ok w) h = (w, refl, run-IsReported reg s w (returned_zero _ h))

  -- The command `worker` exits with 0 only where its configuration is valid and the worker made of it
  -- has run the coordinator's test to its end: none of its transactors has stopped with an error, and
  -- its last message is the report `completed` with its totals.
  pub worker_exit_zero :
      (reg : Registry) (s : perpx_load_test.Worker.Surroundings) (wc : WorkerConfig)
      → worker_command is_lower is_digit made_id reg s wc ≡ some 0
      → (validate_worker is_lower is_digit wc ≡ none)
        × ((w : Worker) × (new_worker is_lower is_digit made_id wc ≡ ok w)
            × IsReported reg (perpx_load_test.Worker.run reg s w).0)
  unfolding worker_command
  worker_exit_zero reg s wc h =
      let (v, k) = checked_zero (validate_worker is_lower is_digit wc) _ h in
      (v, run_worker_zero reg s (new_worker is_lower is_digit made_id wc) k)
