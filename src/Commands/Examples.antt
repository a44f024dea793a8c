-- ===== src/Commands/Examples.antt =====
-- The commands at concrete inputs.
use perpx_load_test.Base.{◌≡◌, refl, String, List, [], ◌∷◌, none, codes}
use perpx_load_test.Config.{validate}
use perpx_load_test.Commands.{main, commands, seeding, with_bank, registered, init_registry}
use perpx_load_test.Commands.Startup.{both_factories, with_endpoints, started_config-Valid}

abbrev an_endpoint : List String
an_endpoint = "ws://localhost:26657/websocket" ∷ []

started : main (codes "coordinator" ∷ []) ≡ commands both_factories
unfolding main with_bank registered init_registry
started = refl

-- The arguments of the seeder are those after its name.
seeds :
    main (codes "seed" ∷ codes "--workers" ∷ codes "3" ∷ [])
    ≡ seeding (codes "--workers" ∷ codes "3" ∷ [])
unfolding main
seeds = refl

started_config-Valid_example :
    (validate both_factories (with_endpoints "perpx-bank" an_endpoint) ≡ none)
    × (validate both_factories (with_endpoints "kvstore" an_endpoint) ≡ none)
started_config-Valid_example =
    started_config-Valid (codes "coordinator" ∷ []) both_factories "ws://localhost:26657/websocket"
      [] started
