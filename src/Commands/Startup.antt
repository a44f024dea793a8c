-- ===== src/Commands/Startup.antt =====
-- With which factories and flags the program starts (cmd/perpx-load-test/main.go, pkg/loadtest/cli.go).
use perpx_load_test.Base.{
  ℕ, ◌≡◌, refl, sym, ap, ◌∙◌, ◌≢◌, inl, inr, Bool, true, false, String, none, some, List, [], ◌∷◌,
  arith, codes, same, str_eq, eq_iff, first_error, if◌then◌else◌, ok,
}
use perpx_load_test.Config.{
  Config, ClientFactory, Registry, register_client_factory, validate, max_txs_per_endpoint,
}
use perpx_load_test.Config.Sound.{validate_iff, IsRunnable, Accepts}
use perpx_load_test.Kvstore.{kvstore_factory}
use perpx_load_test.Seed.Funding.{Sdk}
use perpx_load_test.Bank.{
  validate_config, factory_checks, Client, Factory, Strategy, new_client, counted, new_bank_client,
  new_strategy, env_strategy,
}
use perpx_load_test.Commands.{
  main, commands, seeding, with_bank, registered, init_registry, bank_factory, default_config,
}

-- The factories that the commands know.
abbrev pub both_factories : Registry
both_factories = ("kvstore", kvstore_factory) ∷ ("perpx-bank", bank_factory) ∷ []

with_bank-commands : with_bank init_registry ≡ commands both_factories
unfolding with_bank registered init_registry register_client_factory
with_bank-commands = refl

-- The program seeds, or it runs its commands with both factories; a name is never taken.
main-starts :
    (args : List (List ℕ)) (reg : Registry) → main args ≡ commands reg → reg ≡ both_factories
unfolding main
main-starts [] reg h = commands_of (sym h ∙ with_bank-commands)
  where
    commands_of : {x y : Registry} → commands x ≡ commands y → x ≡ y
    commands_of q = cc
main-starts (a ∷ args) reg h = either (same a (codes "seed")) h
  where
    commands_of : {x y : Registry} → commands x ≡ commands y → x ≡ y
    commands_of q = cc

    either :
        (b : Bool)
        → (if b then seeding args else with_bank init_registry) ≡ commands reg
        → reg ≡ both_factories
    either true q = cc
    either false q = commands_of (sym q ∙ with_bank-commands)

-- The flags' defaults with a factory and some endpoints.
abbrev pub with_endpoints : String → List String → Config
with_endpoints factory es = record (default_config factory) { endpoints = es }

defaults-IsRunnable :
    (factory e : String) (es : List String) → IsRunnable (with_endpoints factory (e ∷ es))
unfolding default_config
defaults-IsRunnable factory e es = record {
  connections_pos = omega arith;
  time_pos = omega arith;
  send_period_pos = omega arith;
  rate_pos = omega arith;
  count_limit = inl refl;
  method_known = refl;
  has_endpoint = λ q. cc;
  select_known = refl;
  ui_known = inr refl;
  peers_nonneg = omega arith;
  timeout_given = λ q. omega arith;
  endpoints_nonneg = omega arith;
  connectivity_nonneg = omega arith;
}

-- With the defaults the bank factory accepts, and so does the key-value factory.
bank-Accepts :
    (e : String) (es : List String) → Accepts both_factories (with_endpoints "perpx-bank" (e ∷ es))
unfolding default_config validate_config factory_checks first_error
bank-Accepts e es = (bank_factory, refl, ground arith)

kvstore-Accepts :
    (e : String) (es : List String) → Accepts both_factories (with_endpoints "kvstore" (e ∷ es))
unfolding default_config perpx_load_test.Kvstore.validate_config max_txs_per_endpoint
    perpx_load_test.Kvstore.required_suffix_len
kvstore-Accepts e es = (kvstore_factory, refl, refl)

accepted-Valid :
    (factory e : String) (es : List String)
    → str_eq factory "" ≡ false
    → Accepts both_factories (with_endpoints factory (e ∷ es))
    → validate both_factories (with_endpoints factory (e ∷ es)) ≡ none
accepted-Valid factory e es n a =
    (validate_iff both_factories (with_endpoints factory (e ∷ es))).1 (
      unfold default_config in (λ q. cc ((eq_iff factory "").1 q)),
      a,
      defaults-IsRunnable factory e es,
    )

-- Whatever the arguments with which the program runs its commands: with the default of every flag but the
-- factory and the endpoints, of which there must be one, the configuration is valid both for the factory
-- `perpx-bank` and for the factory `kvstore`, so that the commands know both.
pub started_config-Valid :
    (args : List (List ℕ)) (reg : Registry) (e : String) (es : List String)
    → main args ≡ commands reg
    → (validate reg (with_endpoints "perpx-bank" (e ∷ es)) ≡ none)
      × (validate reg (with_endpoints "kvstore" (e ∷ es)) ≡ none)
started_config-Valid args reg e es h =
    let q = main-starts args reg h in
    (
      ap (λ r. validate r (with_endpoints "perpx-bank" (e ∷ es))) q
          ∙ accepted-Valid "perpx-bank" e es refl (bank-Accepts e es),
      ap (λ r. validate r (with_endpoints "kvstore" (e ∷ es))) q
          ∙ accepted-Valid "kvstore" e es refl (kvstore-Accepts e es),
    )

some_of : {x y : ClientFactory} → some x ≡ some y → x ≡ y
some_of q = cc

module _ (sdk : Sdk) (valid_addr : List ℕ → Bool) where
  counted_ok :
      (c : Config) (f : Factory) (s : Strategy)
      → c.endpoints ≢ []
      → (client : Client) × ((counted sdk valid_addr c f (ok s)).1 ≡ ok client)
  unfolding counted
  counted_ok c f s h = from c.endpoints h
    where
      from :
          (es : List String)
          → es ≢ []
          → (client : Client) × (new_bank_client sdk valid_addr c s f.worker_counter es ≡ ok client)
      from [] q = absurd (q refl)
      from (e ∷ es) q = (_, unfold new_bank_client in refl)

  -- Where the configuration is valid and the strategy of the environment is accepted, the bank
  -- factory gives a client: there is always a first endpoint to read.
  pub valid_config-client :
      (reg : Registry) (c : Config) (env : List ℕ → List ℕ) (f : Factory) (s : Strategy)
      → validate reg c ≡ none
      → new_strategy sdk valid_addr (env_strategy sdk valid_addr env) ≡ ok s
      → (client : Client) × ((new_client sdk valid_addr env c f).1 ≡ ok client)
  unfolding new_client
  valid_config-client reg c env f s v h =
      let (n, a, runnable) = (validate_iff reg c).0 v in
      let (client, q) = counted_ok c f s runnable.has_endpoint in
      (client, ap (λ r. (counted sdk valid_addr c f r).1) h ∙ q)
