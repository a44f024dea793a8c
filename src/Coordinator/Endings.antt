-- ===== src/Coordinator/Endings.antt =====
-- How `Run` of pkg/loadtest/coordinator.go ends.
use perpx_load_test.Base.{
  ℕ, ◌≡◌, refl, sym, ap, subst, append_nil, append_assoc, ◌∙◌, inl, inr, String, Option, none, some,
  List, [], ◌∷◌, ◌++◌, Bool-cases,
}
use perpx_load_test.Base.Int.{ℤ, pos, ltb_ℤ}
use perpx_load_test.Protocol.{Failure}
use perpx_load_test.Coordinator.{
  Coordinator, Call, fail, stop, record_call, Status, has_failed, has_completed, WaitEvent,
  Progress, going, done,
}
use perpx_load_test.Coordinator.Testing.{TestEvent, receive_testing_updates}
use perpx_load_test.Coordinator.Running.{
  each_worker, fail_all, stop_all, give_up, end_test, end_wait, found, with_peers, run,
}

-- A call for each worker, in the order of the map.
abbrev pub calls_of : (ℕ → Call) → List (String × ℕ) → List Call
calls_of f [] = []
calls_of f (w ∷ ws) = f w.1 ∷ calls_of f ws

each_worker-calls :
    (f : ℕ → Call) (ws : List (String × ℕ)) (c : Coordinator)
    → each_worker f ws c ≡ record c { calls = c.calls ++ calls_of f ws }
unfolding each_worker record_call
each_worker-calls f [] c = ap (λ k. record c { calls = k }) (append_nil c.calls)
each_worker-calls f (w ∷ ws) c =
    each_worker-calls f ws (record_call (f w.1) c)
    ∙ ap (λ k. record c { calls = k }) (append_assoc c.calls (f w.1 ∷ []) (calls_of f ws))

-- The last calls of a run and its last state, by what it returns.
abbrev pub last_calls : Option Failure → List (String × ℕ) → List Call
last_calls none ws = calls_of stop ws
last_calls (some e) ws = calls_of (λ w. fail w e) ws ++ calls_of stop ws

abbrev pub last_status : Option Failure → Status
last_status none = has_completed
last_status (some e) = has_failed

pub record IsClosed (e : Option Failure) (c : Coordinator) : Type 0 where
  pub all_called : (front : List Call) × (c.calls ≡ front ++ last_calls e c.workers)
  pub status : c.state_metric ≡ last_status e

after_success :
    (c : Coordinator) → IsClosed none (stop_all (record c { state_metric = has_completed }))
unfolding stop_all
after_success c =
    let c' : Coordinator = record c { state_metric = has_completed } in
    subst (IsClosed none) (sym (each_worker-calls stop c.workers c'))
      (record { all_called = (c.calls, refl); status = refl })

after_failure : (e : Failure) (c : Coordinator) → IsClosed (some e) (stop_all (give_up e c))
unfolding stop_all give_up fail_all
after_failure e c =
    let ws = c.workers in
    let failed = calls_of (λ w. fail w e) ws in
    let c' : Coordinator = record c { calls = c.calls ++ failed; state_metric = has_failed } in
    subst
      (λ d. IsClosed (some e) (each_worker stop d.workers (record d { state_metric = has_failed })))
      (sym (each_worker-calls (λ w. fail w e) ws c))
      (subst (IsClosed (some e)) (sym (each_worker-calls stop ws c')) (record {
        all_called = (c.calls, append_assoc c.calls failed (calls_of stop ws));
        status = refl;
      }))

done_eq : (a b : Option Failure) → done a ≡ done b → a ≡ b
done_eq a b h = cc

end_test-IsClosed :
    (p : Coordinator × Progress) (e : Option Failure)
    → (end_test p).1 ≡ done e
    → IsClosed e (end_test p).0
unfolding end_test
end_test-IsClosed (c, going) e h = cc
end_test-IsClosed (c, done none) e h =
    subst (λ o. IsClosed o (stop_all (record c { state_metric = has_completed })))
      (done_eq none e h) (after_success c)
end_test-IsClosed (c, done (some x)) e h =
    subst (λ o. IsClosed o (stop_all (give_up x c))) (done_eq (some x) e h) (after_failure x c)

end_wait-IsClosed :
    (now : ℤ) (ts : List TestEvent) (p : Coordinator × Progress) (e : Option Failure)
    → (end_wait now ts p).1 ≡ done e
    → IsClosed e (end_wait now ts p).0
unfolding end_wait
end_wait-IsClosed now ts (c, going) e h = cc
end_wait-IsClosed now ts (c, done none) e h =
    end_test-IsClosed (receive_testing_updates now c ts) e h
end_wait-IsClosed now ts (c, done (some x)) e h =
    subst (λ o. IsClosed o (stop_all (give_up x c))) (done_eq (some x) e h) (after_failure x c)

-- Where the crawl has found the endpoints or was not asked for, a run of the coordinator that returns
-- has told every worker that is still registered to stop, in the order of the map and as its last
-- calls; where it returns an error, it has told each the error before; and the status gauge shows
-- whether the run has failed or completed.
pub run-IsClosed :
    (endpoints : List String) (now : ℤ) (ws : List WaitEvent) (ts : List TestEvent)
    (c : Coordinator) (e : Option Failure)
    → (run (found endpoints) now ws ts c).1 ≡ done e
    → IsClosed e (run (found endpoints) now ws ts c).0
unfolding run with_peers
run-IsClosed endpoints now ws ts c e h = elim (Bool-cases (ltb_ℤ (pos 0) c.cfg.expect_peers)) [
  | inl q ↦ rw q (end_wait-IsClosed now ts _ e (rw q at h))
  | inr q ↦ rw q (end_wait-IsClosed now ts _ e (rw q at h))
]
