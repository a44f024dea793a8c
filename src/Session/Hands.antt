-- ===== src/Session/Hands.antt =====
-- One turn of a remote worker that has handed over all it had (pkg/loadtest/remote_worker.go).
use perpx_load_test.Base.{
  ℕ, ◌+◌, ◌≤◌, ◌≡◌, refl, sym, ap, subst, ◌∙◌, Bool, true, false, String, str_eq, Option, none,
  some, List, [], ◌∷◌, ◌++◌, arith, Result, ok, err, All, if◌then◌else◌,
}
use perpx_load_test.Config.{Config}
use perpx_load_test.Protocol.{
  WorkerState, connected, accepted, rejected, testing, failed, completed, other_state, Failure,
  WorkerMsg,
}
use perpx_load_test.RemoteWorker.{
  Phase, reading_id, registering, waiting_start, receiving, ended, RemoteWorker, write, finish,
  set_state, create_metrics, read_id, reject, register, pass_on, started_by, Event, read,
  registration, control, stop_request, dispatch, step,
}
use perpx_load_test.RemoteWorker.Relay.{
  is_running_state, IsRunning, EndsCompleted, Handed, IsHanded, dispatch-IsHanded,
}
use perpx_load_test.Coordinator.Updates.{is_completed}

abbrev pub IsDrained : RemoteWorker → Type 0
IsDrained rw = (rw.updates ≡ []) × (rw.unregistered ≡ [])

-- How many updates are in the state `completed`.
abbrev pub completed_in : List WorkerMsg → ℕ
completed_in [] = 0
completed_in (msg ∷ us) = is_completed msg.state + completed_in us

pub completed_in-append :
    (us vs : List WorkerMsg) → completed_in (us ++ vs) ≡ completed_in us + completed_in vs
completed_in-append [] vs = omega arith
completed_in-append (msg ∷ us) vs = omega (arith, completed_in-append us vs)

-- Whether the event loop has returned nil.
abbrev pub ended_well : Phase → ℕ
ended_well (ended none) = 1
ended_well _ = 0

completed_in-IsRunning : (us : List WorkerMsg) → All IsRunning us → completed_in us ≡ 0
completed_in-IsRunning [] h = refl
completed_in-IsRunning (msg ∷ us) (r, rs) =
    omega (arith, none_of msg.state r, completed_in-IsRunning us rs)
  where
    none_of : (s : WorkerState) → is_running_state s ≡ true → is_completed s ≡ 0
    none_of completed h = cc
    none_of failed h = cc
    none_of testing h = refl
    none_of connected h = refl
    none_of accepted h = refl
    none_of rejected h = refl
    none_of (other_state s) h = refl

completed_in-Ends : (us : List WorkerMsg) → EndsCompleted us → completed_in us ≡ 1
completed_in-Ends us (front, last, q, running, c) =
    let one : is_completed last.state ≡ 1 = ap is_completed c in
    let parts = completed_in-append front (last ∷ []) in
    rw q (omega (arith, parts, completed_in-IsRunning front running, one))

completed_in-Handed :
    (p : Phase) (id : String) (us : List WorkerMsg) (l : List (String × Option Failure))
    → Handed p id us l
    → completed_in us ≤ ended_well p
completed_in-Handed (ended none) id us l (v, _) = omega (arith, completed_in-Ends us v)
completed_in-Handed (ended (some e)) id us l (v, _) = omega (arith, completed_in-IsRunning us v)
completed_in-Handed receiving id us l (v, _) = omega (arith, completed_in-IsRunning us v)
completed_in-Handed reading_id id us l (v, _) = rw v (omega arith)
completed_in-Handed registering id us l (v, _) = rw v (omega arith)
completed_in-Handed waiting_start id us l (v, _) = rw v (omega arith)

-- What a turn does to the number of loops that have returned nil, where `p` is the phase before it.
abbrev AddsUp : Phase → RemoteWorker → Type 0
AddsUp p rw = ended_well p + completed_in rw.updates ≤ ended_well rw.phase

Handed-AddsUp :
    (p : Phase) (e : Event) (rw : RemoteWorker)
    → ended_well p ≡ 0
    → rw.phase ≡ p
    → Handed p rw.id rw.updates rw.unregistered
    → AddsUp p (dispatch p e rw)
Handed-AddsUp p e rw z q h =
    let still : IsHanded rw = subst (λ x. Handed x rw.id rw.updates rw.unregistered) (sym q) h in
    let after = completed_in-Handed _ _ _ _ (dispatch-IsHanded p e rw q h still) in
    omega (arith, z, after)

dispatch-AddsUp :
    (p : Phase) (e : Event) (rw : RemoteWorker)
    → rw.phase ≡ p
    → IsDrained rw
    → AddsUp p (dispatch p e rw)
dispatch-AddsUp (ended o) e rw q (u, l) =
    let same : ended_well (ended o) ≡ ended_well rw.phase = ap ended_well (sym q) in
    let nothing : completed_in rw.updates ≡ 0 = ap completed_in u in
    unfold dispatch in omega (arith, same, nothing)
dispatch-AddsUp receiving e rw q (u, l) =
    Handed-AddsUp receiving e rw refl q (subst (All IsRunning) (sym u) tt, l)
dispatch-AddsUp reading_id e rw q v = Handed-AddsUp reading_id e rw refl q v
dispatch-AddsUp registering e rw q v = Handed-AddsUp registering e rw refl q v
dispatch-AddsUp waiting_start e rw q v = Handed-AddsUp waiting_start e rw refl q v

-- A turn hands over an update in the state `completed` only where its loop returns nil, and then one.
pub step-AddsUp :
    (e : Event) (rw : RemoteWorker)
    → IsDrained rw
    → ended_well rw.phase + completed_in (step rw e).updates ≤ ended_well (step rw e).phase
unfolding step
step-AddsUp e rw v = dispatch-AddsUp rw.phase e rw refl v

-- A loop whose test has not begun: it has no part in the updates, and has not returned nil.
abbrev pub is_early : Phase → Bool
is_early receiving = false
is_early (ended none) = false
is_early _ = true

-- An event that does not begin the test.
abbrev pub is_not_start : Event → Bool
is_not_start (control testing e o) = false
is_not_start _ = true

abbrev pub StaysEarly : RemoteWorker → Type 0
StaysEarly rw = (is_early rw.phase ≡ true) × (rw.updates ≡ [])

pass_on-updates :
    (s : WorkerState) (e : Failure) (o : Option Failure) (rw : RemoteWorker)
    → (pass_on s e o rw).updates ≡ rw.updates
unfolding pass_on write set_state
pass_on-updates s e none rw = refl
pass_on-updates s e (some f) rw = refl

register-StaysEarly :
    (a : Option Failure) (cfg : Config) (o : Option Failure) (rw : RemoteWorker)
    → rw.updates ≡ []
    → StaysEarly (register a cfg o rw)
unfolding register reject write finish create_metrics
register-StaysEarly (some e) cfg o rw u = (refl, u)
register-StaysEarly none cfg (some e) rw u = (refl, u)
register-StaysEarly none cfg none rw u = (refl, u)

named-StaysEarly :
    (b : Bool) (x y : RemoteWorker) → StaysEarly x → StaysEarly y → StaysEarly (if b then x else y)
named-StaysEarly true x y v w = v
named-StaysEarly false x y v w = w

read_id-StaysEarly :
    (r : Result Failure WorkerMsg) (rw : RemoteWorker) → rw.updates ≡ [] → StaysEarly (read_id r rw)
unfolding read_id write finish
read_id-StaysEarly (err e) rw u = (refl, u)
read_id-StaysEarly (ok msg) rw u = named-StaysEarly (str_eq msg.id "") _ _ (refl, u) (refl, u)

started_by-StaysEarly :
    (s : WorkerState) (e : Failure) (o : Option Failure) (rw : RemoteWorker)
    → is_not_start (control s e o) ≡ true
    → rw.updates ≡ []
    → StaysEarly (started_by s rw)
unfolding started_by finish
started_by-StaysEarly testing e o rw h u = cc
started_by-StaysEarly failed e o rw h u = (refl, u)
started_by-StaysEarly completed e o rw h u = (refl, u)
started_by-StaysEarly connected e o rw h u = (refl, u)
started_by-StaysEarly accepted e o rw h u = (refl, u)
started_by-StaysEarly rejected e o rw h u = (refl, u)
started_by-StaysEarly (other_state s) e o rw h u = (refl, u)

dispatch-StaysEarly :
    (p : Phase) (e : Event) (rw : RemoteWorker)
    → is_not_start e ≡ true
    → is_early p ≡ true
    → StaysEarly rw
    → StaysEarly (dispatch p e rw)
unfolding dispatch finish
dispatch-StaysEarly reading_id (read r) rw h k (v, u) = read_id-StaysEarly r rw u
dispatch-StaysEarly registering (registration a cfg o) rw h k (v, u) =
    register-StaysEarly a cfg o rw u
dispatch-StaysEarly waiting_start (control s e o) rw h k (v, u) =
    started_by-StaysEarly s e o (pass_on s e o rw) h (pass_on-updates s e o rw ∙ u)
dispatch-StaysEarly waiting_start stop_request rw h k (v, u) = (refl, u)
dispatch-StaysEarly receiving e rw h k v = cc
dispatch-StaysEarly _ _ rw h k v = v

-- Until it is told to begin, a remote worker hands over no update and does not return nil.
pub step-StaysEarly :
    (e : Event) (rw : RemoteWorker) → is_not_start e ≡ true → StaysEarly rw → StaysEarly (step rw e)
unfolding step
step-StaysEarly e rw h v = dispatch-StaysEarly rw.phase e rw h v.0 v
