-- ===== src/Config/Nodes.antt =====
-- What the `Validate` methods of the coordinator's and the worker's configuration accept
-- (pkg/loadtest/config.go).
use perpx_load_test.Base.{
  codes, first_error-Passed, not, ◌&&◌, ◌||◌, ℕ, ◌≡◌, refl, ◌≢◌, ◌⊎◌, inl, inr, ◌↔◌, none, List, [],
  ◌∷◌, String, eq_iff, str_eq, Bool, true, false, arith, All, Bool-cases,
}
use perpx_load_test.Base.Int.{pos, ◌≤ℤ◌}
use perpx_load_test.Config.{
  CoordinatorConfig, coordinator_checks, worker_checks, validate_coordinator, is_valid_worker_id,
  WorkerConfig, validate_worker,
}
use perpx_load_test.Config.Sound.{ge_of_not_lt, not_lt_of_ge}

-- The ranges of a coordinator's configuration.
pub record IsCoordinatorReady (c : CoordinatorConfig) : Type 0 where
  pub bind_given : c.bind_addr ≢ ""
  pub workers_pos : pos 1 ≤ℤ c.expect_workers
  pub timeout_pos : pos 1 ≤ℤ c.worker_connect_timeout
  pub id_nonneg : pos 0 ≤ℤ c.load_test_id

text_given : (s : String) → str_eq s "" ≡ false → s ≢ ""
text_given s h e = cc ((eq_iff s "").1 e)

check_of_text : (s : String) → s ≢ "" → str_eq s "" ≡ false
check_of_text s h = elim (Bool-cases (str_eq s "")) [
  | inl e ↦ absurd (h ((eq_iff s "").0 e))
  | inr e ↦ e
]

-- `CoordinatorConfig.Validate` returns nil exactly when the bind address is given, at least one
-- worker and one second are expected, and the load test's id is not negative.
pub validate_coordinator_iff :
    (c : CoordinatorConfig) → (validate_coordinator c ≡ none) ↔ IsCoordinatorReady c
unfolding validate_coordinator
validate_coordinator_iff c = (
  λ h.
      let p = (first_error-Passed (coordinator_checks c)).0 h in
      record {
        bind_given = text_given _ p.0;
        workers_pos = ge_of_not_lt c.expect_workers (pos 1) p.1.0;
        timeout_pos = ge_of_not_lt c.worker_connect_timeout (pos 1) p.1.1.0;
        id_nonneg = ge_of_not_lt c.load_test_id (pos 0) p.1.1.1.0;
      },
  λ v. (first_error-Passed (coordinator_checks c)).1 (
    check_of_text _ v.bind_given,
    (
      not_lt_of_ge c.expect_workers (pos 1) v.workers_pos,
      (
        not_lt_of_ge c.worker_connect_timeout (pos 1) v.timeout_pos,
        (not_lt_of_ge c.load_test_id (pos 0) v.id_nonneg, tt),
      ),
    ),
  ),
)

module _ (is_lower is_digit : ℕ → Bool) where
  -- Every code point of the ID is a lower-case letter or a digit.
  abbrev pub IsLowerAlnum : List ℕ → Type 0
  IsLowerAlnum = All (λ r. (is_lower r || is_digit r) ≡ true)

  pub worker_id_iff :
      (rs : List ℕ) → (is_valid_worker_id is_lower is_digit rs ≡ true) ↔ IsLowerAlnum rs
  unfolding is_valid_worker_id
  worker_id_iff [] = ((λ _. tt), λ _. refl)
  worker_id_iff (r ∷ rs) = ground (arith, worker_id_iff rs)

  -- The ranges of a worker's configuration.
  pub record IsWorkerReady (c : WorkerConfig) : Type 0 where
    pub id_valid : (c.id ≡ "") ⊎ IsLowerAlnum (codes c.id)
    pub addr_given : c.coord_addr ≢ ""
    pub timeout_pos : pos 1 ≤ℤ c.coord_connect_timeout

  id_of_check :
      (s : String)
      → (not (str_eq s "") && not (is_valid_worker_id is_lower is_digit (codes s))) ≡ false
      → (s ≡ "") ⊎ IsLowerAlnum (codes s)
  id_of_check s h = elim (Bool-cases (is_valid_worker_id is_lower is_digit (codes s))) [
    | inl e ↦ inr ((worker_id_iff (codes s)).0 e)
    | inr e ↦ inl ((eq_iff s "").0 (test (rw e at h)))
  ]
    where
      test : (not (str_eq s "") && true) ≡ false → str_eq s "" ≡ true
      test q = ground arith

  check_of_id :
      (s : String)
      → (s ≡ "") ⊎ IsLowerAlnum (codes s)
      → (not (str_eq s "") && not (is_valid_worker_id is_lower is_digit (codes s))) ≡ false
  check_of_id s (inl e) = rw ((eq_iff s "").1 e)
  check_of_id s (inr v) = rw ((worker_id_iff (codes s)).1 v) (ground arith)

  -- `WorkerConfig.Validate` returns nil exactly when the ID is empty or all lower-case letters and
  -- digits, the coordinator's address is given, and the connection timeout is at least 1.
  pub validate_worker_iff :
      (c : WorkerConfig) → (validate_worker is_lower is_digit c ≡ none) ↔ IsWorkerReady c
  unfolding validate_worker
  validate_worker_iff c = (
    λ h.
        let p = (first_error-Passed (worker_checks is_lower is_digit c)).0 h in
        record {
          id_valid = id_of_check c.id p.0;
          addr_given = text_given _ p.1.0;
          timeout_pos = ge_of_not_lt c.coord_connect_timeout (pos 1) p.1.1.0;
        },
    λ v. (first_error-Passed (worker_checks is_lower is_digit c)).1 (
      check_of_id c.id v.id_valid,
      (
        check_of_text _ v.addr_given,
        (not_lt_of_ge c.coord_connect_timeout (pos 1) v.timeout_pos, tt),
      ),
    ),
  )
