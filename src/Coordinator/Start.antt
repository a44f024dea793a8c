-- ===== src/Coordinator/Start.antt =====
-- How the load test is started (`startLoadTest` of pkg/loadtest/coordinator.go).
use perpx_load_test.Base.{
  ℕ, ◌≡◌, refl, ap, ◌∙◌, String, Option, none, some, List, [], ◌∷◌, ◌++◌, length, append_nil,
  append_assoc,
}
use perpx_load_test.Base.Int.{pos}
use perpx_load_test.Protocol.{Failure}
use perpx_load_test.Coordinator.{Coordinator, Call, start, record_call, go_on, start_each}
use perpx_load_test.Coordinator.Registry.{IsRegistry}

-- The calls that tell each worker to begin, in the order of the map.
abbrev pub start_calls : List (String × ℕ) → List Call
start_calls [] = []
start_calls (w ∷ ws) = start w.1 ∷ start_calls ws

pub record_call-IsRegistry :
    (x : Call) (c : Coordinator) → IsRegistry c → IsRegistry (record_call x c)
unfolding record_call
record_call-IsRegistry x c v = record {
  distinct = v.distinct;
  bounded = v.bounded;
  txs_known = v.txs_known;
  bytes_known = v.bytes_known;
}

go_on-keeps {ℓ} :
    (P : Coordinator → Type ℓ) (o : Option Failure) (c : Coordinator)
    (rest : Coordinator × Option Failure)
    → P c
    → P rest.0
    → P (go_on o c rest).0
unfolding go_on
go_on-keeps P (some e) c rest p q = p
go_on-keeps P none c rest p q = q

go_on-none :
    (o : Option Failure) (c : Coordinator) (rest : Coordinator × Option Failure)
    → (go_on o c rest).1 ≡ none
    → (go_on o c rest ≡ rest) × (rest.1 ≡ none)
unfolding go_on
go_on-none (some e) c rest h = cc
go_on-none none c rest h = (refl, h)

pub start_each-IsRegistry :
    (outcome : ℕ → Option Failure) (ws : List (String × ℕ)) (c : Coordinator)
    → IsRegistry c
    → IsRegistry (start_each outcome ws c).0
unfolding start_each
start_each-IsRegistry outcome [] c v = v
start_each-IsRegistry outcome (w ∷ ws) c v =
    let v' = record_call-IsRegistry (start w.1) c v in
    go_on-keeps IsRegistry (outcome w.1) _ _ v' (start_each-IsRegistry outcome ws _ v')

-- The parts that starting the workers leaves alone.
abbrev IsAlike : Coordinator → Coordinator → Type 0
IsAlike c d = (d.workers ≡ c.workers) × (d.coord_cfg ≡ c.coord_cfg)

pub start_each-same :
    (outcome : ℕ → Option Failure) (ws : List (String × ℕ)) (c : Coordinator)
    → IsAlike c (start_each outcome ws c).0
unfolding start_each record_call
start_each-same outcome [] c = (refl, refl)
start_each-same outcome (w ∷ ws) c =
    go_on-keeps (IsAlike c) (outcome w.1) (record_call (start w.1) c) _ (refl, refl)
      (start_each-same outcome ws (record_call (start w.1) c))

pub start_each-calls :
    (outcome : ℕ → Option Failure) (ws : List (String × ℕ)) (c : Coordinator)
    → (start_each outcome ws c).1 ≡ none
    → (start_each outcome ws c).0.calls ≡ c.calls ++ start_calls ws
unfolding start_each record_call
start_each-calls outcome [] c h = append_nil c.calls
start_each-calls outcome (w ∷ ws) c h =
    let (q, h') = go_on-none (outcome w.1) (record_call (start w.1) c) _ h in
    ap (λ r. r.0.calls) q
    ∙ start_each-calls outcome ws (record_call (start w.1) c) h'
    ∙ append_assoc c.calls (start w.1 ∷ []) (start_calls ws)

-- All the workers that are expected are there, and each has been told to begin.
pub record IsStarted (c : Coordinator) : Type 0 where
  pub all_there : pos (length c.workers) ≡ c.coord_cfg.expect_workers
  pub all_told : (front : List Call) × (c.calls ≡ front ++ start_calls c.workers)
