-- ===== src/Session/Sound.antt =====
-- A coordinator together with its remote workers, at a turn of one of these
-- (pkg/loadtest/remote_worker.go).
use perpx_load_test.Base.{
  ℕ, ◌+◌, ◌≤◌, ◌==◌, ◌≡◌, refl, ap, subst, ◌∙◌, Bool, true, false, Option, none, some, List, [],
  ◌++◌, arith, get_elem?, All, if◌then◌else◌,
}
use perpx_load_test.Base.Int.{ℤ, pos, ◌≤ℤ◌}
use perpx_load_test.Config.{Config}
use perpx_load_test.Protocol.{
  Failure, WorkerState, WorkerMsg, connected, accepted, rejected, testing, failed, completed,
  other_state,
}
use perpx_load_test.RemoteWorker.{RemoteWorker, Event, fail_in, fail_event, step}
use perpx_load_test.Coordinator.{Call, answer, start, fail, stop}
use perpx_load_test.Session.{
  System, Stage, waits, tests, returned, coord_of, hand_over, takes, turn, heard, put, drained,
}
use perpx_load_test.Session.Hands.{
  IsDrained, completed_in, completed_in-append, step-AddsUp, is_not_start, StaysEarly,
  step-StaysEarly,
}
use perpx_load_test.Session.Counts.{finished_in, finished_in-put, All-put, All-get, IsNoStart}

-- What holds in each part of `Run`, where `x` workers are expected: while the coordinator waits, no
-- remote worker has been told to begin, none has begun, and no update is on its way; while it receives
-- updates, it has counted no more completed workers than event loops have returned nil, those whose
-- last update is still on its way included; and it returns nil only where as many have returned nil
-- as workers are expected.
abbrev pub Staged : ℤ → List RemoteWorker → List WorkerMsg → Stage → Type 0
Staged x rws us (waits c) =
    (c.coord_cfg.expect_workers ≡ x) × All IsNoStart c.calls × All StaysEarly rws × (us ≡ [])
Staged x rws us (tests t) =
    (t.coord.coord_cfg.expect_workers ≡ x) × (t.completed_count + completed_in us ≤ finished_in rws)
Staged x rws us (returned c none) = x ≤ℤ pos (finished_in rws)
Staged x rws us (returned c (some e)) = Unit

pub record IsSound (x : ℤ) (s : System) : Type 0 where
  pub all_drained : All IsDrained s.remotes
  pub staged : Staged x s.remotes s.updates s.stage

-- What a remote worker may hear in each part.
abbrev pub MayTake : Stage → Event → Type 0
MayTake (waits c) e = is_not_start e ≡ true
MayTake _ e = Unit

pub le_trans_pos : (x : ℤ) (m n : ℕ) → x ≤ℤ pos m → m ≤ n → x ≤ℤ pos n
le_trans_pos x m n h k = ground arith

hand_over-Staged :
    (x : ℤ) (i : ℕ) (rw : RemoteWorker) (e : Event) (rws : List RemoteWorker) (us : List WorkerMsg)
    (g : Stage)
    → get_elem? rws i ≡ some rw
    → IsDrained rw
    → MayTake g e
    → Staged x rws us g
    → Staged x (put i (drained (step rw e)) rws) (us ++ (step rw e).updates) g
hand_over-Staged x i rw e rws us (waits c) h d m (q, v, w, u) =
    let early = All-get StaysEarly rws i rw w h in
    let after = step-StaysEarly e rw m early in
    (
      q,
      v,
      All-put StaysEarly i (drained (step rw e)) rws (after.0, refl) w,
      ap (λ l. l ++ (step rw e).updates) u ∙ after.1,
    )
hand_over-Staged x i rw e rws us (tests t) h d m (q, v) =
    let adds = step-AddsUp e rw d in
    let count = finished_in-put i rw (step rw e) rws h in
    let sent = completed_in-append us (step rw e).updates in
    (q, omega (arith, v, adds, count, sent))
hand_over-Staged x i rw e rws us (returned c none) h d m v =
    let adds = step-AddsUp e rw d in
    let count = finished_in-put i rw (step rw e) rws h in
    le_trans_pos x _ _ v (omega (arith, adds, count))
hand_over-Staged x i rw e rws us (returned c (some f)) h d m v = tt

takes-IsSound :
    (x : ℤ) (i : ℕ) (rw : RemoteWorker) (o : Option Event) (s : System)
    → get_elem? s.remotes i ≡ some rw
    → ((e : Event) → o ≡ some e → MayTake s.stage e)
    → IsSound x s
    → IsSound x (takes i rw o s)
unfolding takes hand_over
takes-IsSound x i rw none s h m v = v
takes-IsSound x i rw (some e) s h m v = record {
  all_drained = All-put IsDrained i (drained (step rw e)) s.remotes (refl, refl) v.all_drained;
  staged =
      hand_over-Staged x i rw e s.remotes s.updates s.stage h
        (All-get IsDrained s.remotes i rw v.all_drained h) (m e refl) v.staged;
}

pub turn-IsSound :
    (x : ℤ) (i : ℕ) (found : Option RemoteWorker) (event : RemoteWorker → Option Event) (s : System)
    → get_elem? s.remotes i ≡ found
    → ((rw : RemoteWorker) (e : Event) → event rw ≡ some e → MayTake s.stage e)
    → IsSound x s
    → IsSound x (turn i found event s)
unfolding turn
turn-IsSound x i none event s h m v = v
turn-IsSound x i (some rw) event s h m v = takes-IsSound x i rw (event rw) s h (m rw) v

pub some_of {ℓ} : {A : Type ℓ} {a b : A} → some a ≡ some b → a ≡ b
some_of h = cc

if_some :
    (b : Bool) (d e : Event)
    → (if b then some d else none) ≡ some e
    → is_not_start d ≡ true
    → is_not_start e ≡ true
if_some true d e h q = subst (λ x. is_not_start x ≡ true) (some_of h) q
if_some false d e h q = cc

fail_in-not_start :
    (s : WorkerState) (reason : Failure) (o : Option Failure) (e : Event)
    → fail_in s reason o ≡ some e
    → is_not_start e ≡ true
unfolding fail_in
fail_in-not_start failed reason o e h = cc
fail_in-not_start completed reason o e h = if_some true _ e h refl
fail_in-not_start testing reason o e h = if_some true _ e h refl
fail_in-not_start connected reason o e h = if_some true _ e h refl
fail_in-not_start accepted reason o e h = if_some true _ e h refl
fail_in-not_start rejected reason o e h = if_some true _ e h refl
fail_in-not_start (other_state s) reason o e h = if_some true _ e h refl

failed-not_start :
    (b : Bool) (reason : Failure) (o : Option Failure) (rw : RemoteWorker) (e : Event)
    → (if b then fail_event reason o rw else none) ≡ some e
    → is_not_start e ≡ true
unfolding fail_event
failed-not_start true reason o rw e h = fail_in-not_start rw.state reason o e h
failed-not_start false reason o rw e h = cc

heard-not_start :
    (cfg : Config) (o : Option Failure) (i : ℕ) (call : Option Call) (rw : RemoteWorker) (e : Event)
    → ((a : Call) → call ≡ some a → IsNoStart a)
    → heard cfg o i call rw ≡ some e
    → is_not_start e ≡ true
unfolding heard
heard-not_start cfg o i none rw e v h = cc
heard-not_start cfg o i (some (answer j a)) rw e v h = if_some (j == i) _ e h refl
heard-not_start cfg o i (some (start j)) rw e v h = absurd (v (start j) refl)
heard-not_start cfg o i (some (fail j f)) rw e v h = failed-not_start (j == i) f o rw e h
heard-not_start cfg o i (some (stop j)) rw e v h = if_some (j == i) _ e h refl

pub heard-MayTake :
    (x : ℤ) (o : Option Failure) (i k : ℕ) (rws : List RemoteWorker) (us : List WorkerMsg)
    (g : Stage) (rw : RemoteWorker) (e : Event)
    → Staged x rws us g
    → heard (coord_of g).cfg o i (get_elem? (coord_of g).calls k) rw ≡ some e
    → MayTake g e
heard-MayTake x o i k rws us (waits c) rw e (q, v, w, u) h =
    heard-not_start c.cfg o i (get_elem? c.calls k) rw e (λ a. All-get IsNoStart c.calls k a v) h
heard-MayTake x o i k rws us (tests t) rw e v h = tt
heard-MayTake x o i k rws us (returned c f) rw e v h = tt

pub anything-MayTake : (g : Stage) (e : Event) → is_not_start e ≡ true → MayTake g e
anything-MayTake (waits c) e h = h
anything-MayTake (tests t) e h = tt
anything-MayTake (returned c f) e h = tt
