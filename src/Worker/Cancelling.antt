-- ===== src/Worker/Cancelling.antt =====
-- A worker that is interrupted while its test runs (pkg/loadtest/worker.go,
-- pkg/loadtest/transactor_group.go, pkg/loadtest/transactor.go).
use perpx_load_test.Base.{
  ◌≡◌, refl, sym, subst, inl, inr, Bool, true, false, Bool-cases, Option, none, some, List, [], ◌∷◌,
  ◌++◌, is_some,
}
use perpx_load_test.Base.Int.{ℤ}
use perpx_load_test.Protocol.{Failure, WorkerMsg, group_error, blank, failed}
use perpx_load_test.Transactor.{Event, StopError, Transactor, cancelled, set_stop, wait}
use perpx_load_test.Transactor.Shutdown.{stop_err_sticks}
use perpx_load_test.Coordinator.{Progress, done}
use perpx_load_test.Group.{
  Group, run_each, start, cancel_unread, cancel_unread_each, resume, first_failure, earlier,
  track_each,
}
use perpx_load_test.Worker.{Worker, write, fail_with, finished_with, wait_group, or_fail}
use perpx_load_test.Worker.Interrupts.{
  no_interrupts, set_interrupt, trigger_each, cancel_worker, signalled_test,
}

-- The result of one of the transactors is still to be read.
abbrev pub IsPending : List Bool → List Transactor → Type 0
IsPending [] ts = ⊥
IsPending (b ∷ bs) [] = ⊥
IsPending (true ∷ bs) (t ∷ ts) = Unit
IsPending (false ∷ bs) (t ∷ ts) = IsPending bs ts

-- One of the transactors has an error.
abbrev Fails : List Transactor → Type 0
Fails ts = is_some (first_failure ts) ≡ true

some_of : {A : Type 0} (o : Option A) → is_some o ≡ true → (a : A) × (o ≡ some a)
some_of none h = cc
some_of (some a) h = (a, refl)

earlier_first : (o l : Option StopError) → is_some o ≡ true → is_some (earlier o l) ≡ true
unfolding earlier
earlier_first none l h = cc
earlier_first (some e) l h = refl

earlier_second : (o l : Option StopError) → is_some l ≡ true → is_some (earlier o l) ≡ true
unfolding earlier
earlier_second none l h = h
earlier_second (some e) l h = refl

earlier_rest :
    (o l : Option StopError) → is_some o ≡ false → is_some (earlier o l) ≡ true → is_some l ≡ true
unfolding earlier
earlier_rest none l h k = k
earlier_rest (some e) l h k = cc

run_each-IsPending :
    (events : List (List Event)) (bs : List Bool) (ts : List Transactor)
    → IsPending bs ts
    → IsPending bs (run_each events ts)
unfolding run_each
run_each-IsPending [] bs ts h = h
run_each-IsPending (es ∷ rest) [] ts h = absurd h
run_each-IsPending (es ∷ rest) (b ∷ bs) [] h = h
run_each-IsPending (es ∷ rest) (true ∷ bs) (t ∷ ts) h = tt
run_each-IsPending (es ∷ rest) (false ∷ bs) (t ∷ ts) h = run_each-IsPending rest bs ts h

cancel_unread_each-Fails :
    (bs : List Bool) (ts : List Transactor) → IsPending bs ts → Fails (cancel_unread_each bs ts)
unfolding cancel_unread_each set_stop first_failure wait
cancel_unread_each-Fails [] ts h = absurd h
cancel_unread_each-Fails (b ∷ bs) [] h = absurd h
cancel_unread_each-Fails (true ∷ bs) (t ∷ ts) h =
    earlier_first (set_stop (some cancelled) t).stop_err (first_failure (cancel_unread_each bs ts))
      refl
cancel_unread_each-Fails (false ∷ bs) (t ∷ ts) h =
    earlier_second _ _ (cancel_unread_each-Fails bs ts h)

run_each-Fails :
    (events : List (List Event)) (ts : List Transactor) → Fails ts → Fails (run_each events ts)
unfolding run_each first_failure wait
run_each-Fails [] ts h = h
run_each-Fails (es ∷ rest) [] h = h
run_each-Fails (es ∷ rest) (t ∷ ts) h = elim (Bool-cases (is_some t.stop_err)) [
  | inl q ↦ earlier_first _ _ (stop_err_sticks t es q)
  | inr q ↦ earlier_second _ _ (run_each-Fails rest ts (earlier_rest t.stop_err _ q h))
]

-- The worker returns an error, and its last message is that it has failed with it.
abbrev pub FailsLast : Worker × Progress → Type 0
FailsLast p =
    (e : StopError) × (front : List WorkerMsg) × (p.1 ≡ done (some (group_error e)))
    × (p.0.outbox
        ≡ front ++ (record blank { id = p.0.id; state = failed; error = group_error e } ∷ []))

wait_group-FailsLast :
    (outcome : Option Failure) (w : Worker)
    → Fails w.group.transactors
    → FailsLast (or_fail (wait_group outcome w))
unfolding wait_group perpx_load_test.Group.wait finished_with or_fail fail_with write
wait_group-FailsLast outcome w h =
    let (e, q) = some_of (first_failure w.group.transactors) h in
    let g = track_each 0 w.group.transactors w.group in
    subst (λ o. FailsLast (or_fail (finished_with o outcome (record w { group = g })))) (sym q)
      (e, w.outbox, refl, refl)

-- A worker whose test is interrupted while the result of one of its transactors is still to be read
-- never reports that it has completed: whatever its transactors have met before and meet afterwards,
-- `Run` returns the error of a transactor, and the last message to the coordinator is that the worker
-- has failed with it, where that message can be written.
pub signalled_test-FailsLast :
    (now : ℤ) (before : List (List Event)) (unread : List Bool) (after : List (List Event))
    (outcome : Option Failure) (w : Worker)
    → IsPending unread w.group.transactors
    → FailsLast (signalled_test now before unread after outcome w)
unfolding signalled_test
signalled_test-FailsLast now before unread after outcome w h = wait_group-FailsLast outcome _ (
    unfold set_interrupt no_interrupts cancel_worker trigger_each resume start cancel_unread in
    run_each-Fails after (cancel_unread_each unread (run_each before w.group.transactors)) (
      cancel_unread_each-Fails unread (run_each before w.group.transactors)
        (run_each-IsPending before unread w.group.transactors h)))
