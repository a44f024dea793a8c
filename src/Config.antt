-- ===== src/Config.antt =====
-- pkg/loadtest/config.go and the client interface of pkg/loadtest/client.go: the three
-- configurations, their validation, and the registry of client factories. An error is a constructor
-- for each message, with the values that the message prints.
pub mod Sound
pub mod Nodes
pub mod Capacity
pub mod Examples
use perpx_load_test.Base.{
  codes, ℕ, ◌*◌, ◌%◌, String, str_eq, Bool, true, false, not, ◌&&◌, ◌||◌, Option, none, some, List,
  [], ◌∷◌, if◌then◌else◌, is_some, lookup, insert, first_error,
}
use perpx_load_test.Base.Int.{ℤ, pos, negsuc, ltb_ℤ, eqb_ℤ, to_uint64, two64}

pub record Config : Type 0 where
  pub client_factory : String
  pub connections : ℤ
  pub time : ℤ
  pub send_period : ℤ
  pub rate : ℤ
  pub size : ℤ
  pub count : ℤ
  pub broadcast_tx_method : String
  pub endpoints : List String
  pub endpoint_select_method : String
  pub ui : String
  pub expect_peers : ℤ
  pub max_endpoints : ℤ
  pub min_connectivity : ℤ
  pub peer_connect_timeout : ℤ
  pub stats_output_file : String
  pub no_trap_interrupts : Bool

pub record CoordinatorConfig : Type 0 where
  pub bind_addr : String
  pub expect_workers : ℤ
  pub worker_connect_timeout : ℤ
  pub shutdown_wait : ℤ
  pub load_test_id : ℤ

pub record WorkerConfig : Type 0 where
  pub id : String
  pub coord_addr : String
  pub coord_connect_timeout : ℤ

-- What a client factory's own validation refuses, for the two factories of the repository.
pub data FactoryError : Type 0 where
  no_tx_estimate : ℕ → FactoryError
  too_many_txs : ℕ → FactoryError
  suffix_too_long : ℕ → ℕ → FactoryError
  size_too_small : ℤ → ℤ → FactoryError
  no_connections : FactoryError
  no_time_or_count : FactoryError
  no_endpoint : FactoryError

pub data ConfigError : Type 0 where
  missing_factory_name : ConfigError
  unknown_factory : String → ConfigError
  factory_refused : String → FactoryError → ConfigError
  bad_connections : ℤ → ConfigError
  bad_time : ℤ → ConfigError
  bad_send_period : ℤ → ConfigError
  bad_rate : ℤ → ConfigError
  bad_count : ℤ → ConfigError
  bad_broadcast_method : String → ConfigError
  no_endpoints : ConfigError
  bad_select_method : String → ConfigError
  bad_ui : String → ConfigError
  bad_expect_peers : ℤ → ConfigError
  bad_peer_timeout : ℤ → ConfigError
  bad_max_endpoints : ℤ → ConfigError
  bad_min_connectivity : ℤ → ConfigError
  missing_bind_addr : ConfigError
  bad_expect_workers : ℤ → ConfigError
  bad_connect_timeout : ConfigError
  bad_load_test_id : ConfigError
  bad_worker_id : String → ConfigError
  missing_coord_addr : ConfigError
  bad_worker_connect_timeout : ℤ → ConfigError

-- The part of the `ClientFactory` interface that validation calls.
pub record ClientFactory : Type 0 where
  pub validate_config : Config → Option FactoryError

-- The global `clientFactories`.
abbrev pub Registry : Type 0
Registry = List (String × ClientFactory)

-- `none` when the name is taken.
unfoldable pub register_client_factory : String → ClientFactory → Registry → Option Registry
register_client_factory name factory reg =
    if is_some (lookup name reg) then none else some (insert name factory reg)

abbrev pub valid_select_method : String → Bool
valid_select_method s = str_eq s "supplied" || str_eq s "discovered" || str_eq s "any"

abbrev pub valid_broadcast_method : String → Bool
valid_broadcast_method s = str_eq s "async" || str_eq s "sync" || str_eq s "commit"

abbrev pub valid_ui_mode : String → Bool
valid_ui_mode s = str_eq s "plain" || str_eq s "tui"

abbrev pub is_empty : List String → Bool
is_empty [] = true
is_empty (x ∷ xs) = false

-- The checks below the factory's own, in order. The default for an empty `UI` is set on a copy.
field_checks : Config → List (Bool × ConfigError)
field_checks c =
    (ltb_ℤ c.connections (pos 1), bad_connections c.connections)
    ∷ (ltb_ℤ c.time (pos 1), bad_time c.time)
    ∷ (ltb_ℤ c.send_period (pos 1), bad_send_period c.send_period)
    ∷ (ltb_ℤ c.rate (pos 1), bad_rate c.rate)
    ∷ (ltb_ℤ c.count (pos 1) && not (eqb_ℤ c.count (negsuc 0)), bad_count c.count)
    ∷ (
      not (valid_broadcast_method c.broadcast_tx_method),
      bad_broadcast_method c.broadcast_tx_method,
    )
    ∷ (is_empty c.endpoints, no_endpoints)
    ∷ (
      not (valid_select_method c.endpoint_select_method),
      bad_select_method c.endpoint_select_method,
    )
    ∷ (not (valid_ui_mode (if str_eq c.ui "" then "plain" else c.ui)), bad_ui c.ui)
    ∷ (ltb_ℤ c.expect_peers (pos 0), bad_expect_peers c.expect_peers)
    ∷ (
      ltb_ℤ (pos 0) c.expect_peers && ltb_ℤ c.peer_connect_timeout (pos 1),
      bad_peer_timeout c.peer_connect_timeout,
    )
    ∷ (ltb_ℤ c.max_endpoints (pos 0), bad_max_endpoints c.max_endpoints)
    ∷ (ltb_ℤ c.min_connectivity (pos 0), bad_min_connectivity c.min_connectivity)
    ∷ []

validate_with : Config → Option ClientFactory → Option ConfigError
unfolding field_checks first_error
validate_with c none = some (unknown_factory c.client_factory)
validate_with c (some factory) = elim (factory.validate_config c) [
  | some e ↦ some (factory_refused c.client_factory e)
  | none ↦ first_error (field_checks c)
]

-- `Config.Validate`; `none` is nil.
unfoldable pub validate : Registry → Config → Option ConfigError
unfolding validate_with
validate reg c =
    if str_eq c.client_factory ""
    then some missing_factory_name
    else validate_with c (lookup c.client_factory reg)

-- `Config.MaxTxsPerEndpoint`, in `uint64`.
unfoldable pub max_txs_per_endpoint : Config → ℕ
unfolding to_uint64
max_txs_per_endpoint c =
    if ltb_ℤ (negsuc 0) c.count
    then to_uint64 c.count
    else (to_uint64 c.rate * to_uint64 c.time) % two64

coordinator_checks : CoordinatorConfig → List (Bool × ConfigError)
coordinator_checks c =
    (str_eq c.bind_addr "", missing_bind_addr)
    ∷ (ltb_ℤ c.expect_workers (pos 1), bad_expect_workers c.expect_workers)
    ∷ (ltb_ℤ c.worker_connect_timeout (pos 1), bad_connect_timeout)
    ∷ (ltb_ℤ c.load_test_id (pos 0), bad_load_test_id)
    ∷ []

-- `CoordinatorConfig.Validate`.
unfoldable pub validate_coordinator : CoordinatorConfig → Option ConfigError
unfolding coordinator_checks first_error
validate_coordinator c = first_error (coordinator_checks c)

-- Go's `unicode.IsLower` and `unicode.IsDigit`, whose tables are the standard library's.
module _ (is_lower is_digit : ℕ → Bool) where
  unfoldable pub is_valid_worker_id : List ℕ → Bool
  is_valid_worker_id [] = true
  is_valid_worker_id (r ∷ rs) =
      let rest = is_valid_worker_id rs in
      if not (is_lower r) && not (is_digit r) then false else rest

  worker_checks : WorkerConfig → List (Bool × ConfigError)
  worker_checks c =
      (not (str_eq c.id "") && not (is_valid_worker_id (codes c.id)), bad_worker_id c.id)
      ∷ (str_eq c.coord_addr "", missing_coord_addr)
      ∷ (ltb_ℤ c.coord_connect_timeout (pos 1), bad_worker_connect_timeout c.coord_connect_timeout)
      ∷ []

  -- `WorkerConfig.Validate`.
  unfoldable pub validate_worker : WorkerConfig → Option ConfigError
  unfolding worker_checks first_error is_valid_worker_id
  validate_worker c = first_error (worker_checks c)
