-- ===== src/Coordinator/Tally.antt =====
-- The counts that the coordinator keeps after all that `receiveTestingUpdates` of
-- pkg/loadtest/coordinator.go has received.
use perpx_load_test.Base.{◌≡◌, refl, ap, ◌∙◌, List, [], ◌∷◌, ◌++◌, lookup}
use perpx_load_test.Coordinator.{Coordinator, Progress, going, done}
use perpx_load_test.Coordinator.Testing.{TestEvent, Testing, test_step, test_on}
use perpx_load_test.Coordinator.Taken.{
  known_after, last_told, Follows, IsCounted, IsTaken, test_step-IsTaken,
}

-- The events that the loop has taken, and the counts after them.
pub record IsTallied (c : Coordinator) (es : List TestEvent) (d : Coordinator) : Type 0 where
  pub taken : List TestEvent
  pub rest : List TestEvent
  pub split : taken ++ rest ≡ es
  pub follows : Follows c.workers c d taken

after_first :
    (c u d : Coordinator) (e : TestEvent) (es : List TestEvent)
    → IsTaken c u e
    → IsTallied u es d
    → IsTallied c (e ∷ es) d
after_first c u d e es v w = record {
  taken = e ∷ w.taken;
  rest = w.rest;
  split = ap (λ l. e ∷ l) w.split;
  follows = record {
    txs = λ id.
        w.follows.txs id
        ∙ ap (λ k. last_told (λ m. m.tx_count) id k w.taken (lookup id u.total_txs_per_worker))
            v.known
        ∙ ap (last_told (λ m. m.tx_count) id (known_after e c.workers) w.taken) (v.follows.txs id);
    bytes = λ id.
        w.follows.bytes id
        ∙ ap
            (λ k.
              last_told (λ m. m.total_tx_bytes) id k w.taken (lookup id u.total_bytes_per_worker))
            v.known
        ∙ ap (last_told (λ m. m.total_tx_bytes) id (known_after e c.workers) w.taken)
            (v.follows.bytes id);
  };
}

-- What the loop has done with some events.
abbrev Looped : Coordinator → List TestEvent → Coordinator → Type 0
Looped c es d = IsTallied c es d × (IsCounted c → IsCounted d)

after_step :
    (t : Testing) (e : TestEvent) (es : List TestEvent) (r : Testing × Progress)
    → IsTaken t.coord r.0.coord e
    → Looped r.0.coord es (test_on (r.0, going) es).0.coord
    → Looped t.coord (e ∷ es) (test_on r es).0.coord
unfolding test_on
after_step t e es (u, going) v w =
    (after_first t.coord u.coord _ e es v w.0, λ h. w.1 (v.counted h))
after_step t e es (u, done f) v w =
    (record { taken = e ∷ []; rest = es; split = refl; follows = v.follows }, v.counted)

pub test_on-IsTallied :
    (t : Testing) (es : List TestEvent)
    → IsTallied t.coord es (test_on (t, going) es).0.coord
      × (IsCounted t.coord → IsCounted (test_on (t, going) es).0.coord)
unfolding test_on
test_on-IsTallied t [] = (
  record {
    taken = [];
    rest = [];
    split = refl;
    follows = record { txs = λ id. refl; bytes = λ id. refl };
  },
  λ h. h,
)
test_on-IsTallied t (e ∷ es) =
    after_step t e es (test_step t e) (test_step-IsTaken t e)
      (test_on-IsTallied (test_step t e).0 es)
