-- ===== src/RemoteWorker/Relay.antt =====
-- What a remote worker hands to the coordinator (pkg/loadtest/remote_worker.go).
use perpx_load_test.Base.{
  ◌≡◌, refl, sym, ap, subst, Bool, true, false, String, str_eq, Option, none, some, List, [], ◌∷◌,
  ◌++◌, Result, ok, err, All, All-append, if◌then◌else◌,
}
use perpx_load_test.Config.{Config}
use perpx_load_test.Protocol.{
  WorkerState, connected, accepted, rejected, testing, failed, completed, other_state, Failure,
  WorkerMsg, missing_id, blank,
}
use perpx_load_test.RemoteWorker.{
  Phase, reading_id, registering, waiting_start, receiving, ended, RemoteWorker, write, finish,
  set_state, read_id, reject, register, pass_on, started_by, controlled_by, relay, updated_by,
  receive_update, Event, read, registration, control, stop_request, dispatch, step, run,
  new_remote_worker,
}

abbrev pub is_running_state : WorkerState → Bool
is_running_state failed = false
is_running_state completed = false
is_running_state _ = true

-- An update that leaves the worker running.
abbrev pub IsRunning : WorkerMsg → Type 0
IsRunning msg = is_running_state msg.state ≡ true

-- The updates of a worker that has completed: one in the state `completed`, after others.
abbrev pub EndsCompleted : List WorkerMsg → Type 0
EndsCompleted us =
    (front : List WorkerMsg) × (last : WorkerMsg) × (us ≡ front ++ (last ∷ []))
    × All IsRunning front
    × (last.state ≡ completed)

-- What has been handed to the coordinator, by the phase.
abbrev pub Handed : Phase → String → List WorkerMsg → List (String × Option Failure) → Type 0
Handed (ended none) id us l = EndsCompleted us × (l ≡ (id, none) ∷ [])
Handed (ended (some e)) id us l = All IsRunning us × (l ≡ (id, some e) ∷ [])
Handed receiving id us l = All IsRunning us × (l ≡ [])
Handed _ id us l = (us ≡ []) × (l ≡ [])

abbrev pub IsHanded : RemoteWorker → Type 0
IsHanded rw = Handed rw.phase rw.id rw.updates rw.unregistered

-- A worker whose loop has not returned, with nothing in its updates but ones that leave it running.
record IsOpen (rw : RemoteWorker) : Type 0 where
  running : All IsRunning rw.updates
  registered : rw.unregistered ≡ []

finish-IsHanded : (e : Failure) (rw : RemoteWorker) → IsOpen rw → IsHanded (finish (some e) rw)
unfolding finish
finish-IsHanded e rw v = (v.running, ap (λ l. l ++ ((rw.id, some e) ∷ [])) v.registered)

write-IsOpen : (msg : WorkerMsg) (rw : RemoteWorker) → IsOpen rw → IsOpen (write msg rw)
unfolding write
write-IsOpen msg rw v = record { running = v.running; registered = v.registered }

pass_on-IsOpen :
    (s : WorkerState) (e : Failure) (o : Option Failure) (rw : RemoteWorker)
    → IsOpen rw
    → IsOpen (pass_on s e o rw)
unfolding pass_on write set_state
pass_on-IsOpen s e none rw v = record { running = v.running; registered = v.registered }
pass_on-IsOpen s e (some f) rw v = record { running = v.running; registered = v.registered }

IsOpen-start : (rw : RemoteWorker) → rw.updates ≡ [] → rw.unregistered ≡ [] → IsOpen rw
IsOpen-start rw h k = record { running = subst (All IsRunning) (sym h) tt; registered = k }

reject-IsHanded : (e : Failure) (rw : RemoteWorker) → IsOpen rw → IsHanded (reject e rw)
unfolding reject
reject-IsHanded e rw v =
    finish-IsHanded e _ (write-IsOpen (record blank { state = rejected; error = e }) rw v)

register-IsHanded :
    (a : Option Failure) (cfg : Config) (o : Option Failure) (rw : RemoteWorker)
    → rw.updates ≡ []
    → rw.unregistered ≡ []
    → IsHanded (register a cfg o rw)
unfolding register
register-IsHanded (some e) cfg o rw h k = reject-IsHanded e rw (IsOpen-start rw h k)
register-IsHanded none cfg (some e) rw h k = reject-IsHanded e _ (
    write-IsOpen (record blank { id = rw.id; state = accepted; config = some cfg }) rw
      (IsOpen-start rw h k))
register-IsHanded none cfg none rw h k = unfold write in (h, k)

named-IsHanded :
    (b : Bool) (msg : WorkerMsg) (rw : RemoteWorker)
    → rw.updates ≡ []
    → rw.unregistered ≡ []
    → IsHanded (
        if b
        then finish
            (some missing_id)
            (write (record blank { state = failed; error = missing_id }) rw)
        else record rw { id = msg.id; phase = registering })
named-IsHanded true msg rw h k =
    finish-IsHanded missing_id _
      (write-IsOpen (record blank { state = failed; error = missing_id }) rw (IsOpen-start rw h k))
named-IsHanded false msg rw h k = (h, k)

read_id-IsHanded :
    (r : Result Failure WorkerMsg) (rw : RemoteWorker)
    → rw.updates ≡ []
    → rw.unregistered ≡ []
    → IsHanded (read_id r rw)
unfolding read_id
read_id-IsHanded (err e) rw h k =
    finish-IsHanded e _
      (write-IsOpen (record blank { state = failed; error = e }) rw (IsOpen-start rw h k))
read_id-IsHanded (ok msg) rw h k = named-IsHanded (str_eq msg.id "") msg rw h k

started_by-IsHanded : (s : WorkerState) (rw : RemoteWorker) → IsOpen rw → IsHanded (started_by s rw)
unfolding started_by
started_by-IsHanded testing rw v = (v.running, v.registered)
started_by-IsHanded failed rw v = finish-IsHanded _ rw v
started_by-IsHanded completed rw v = finish-IsHanded _ rw v
started_by-IsHanded connected rw v = finish-IsHanded _ rw v
started_by-IsHanded accepted rw v = finish-IsHanded _ rw v
started_by-IsHanded rejected rw v = finish-IsHanded _ rw v
started_by-IsHanded (other_state s) rw v = finish-IsHanded _ rw v

-- A loop in `receiveTestingUpdates`.
abbrev IsReceiving : RemoteWorker → Type 0
IsReceiving rw = (rw.phase ≡ receiving) × IsOpen rw

still-IsHanded : (rw : RemoteWorker) → IsReceiving rw → IsHanded rw
still-IsHanded rw (p, v) =
    subst (λ q. Handed q rw.id rw.updates rw.unregistered) (sym p) (v.running, v.registered)

controlled_by-IsHanded :
    (s : WorkerState) (e : Failure) (o : Option Failure) (rw : RemoteWorker)
    → IsReceiving rw
    → IsHanded (controlled_by s e o rw)
unfolding controlled_by
controlled_by-IsHanded failed e o rw v = finish-IsHanded _ _ (pass_on-IsOpen failed e o rw v.1)
controlled_by-IsHanded testing e o rw v = still-IsHanded rw v
controlled_by-IsHanded completed e o rw v = still-IsHanded rw v
controlled_by-IsHanded connected e o rw v = still-IsHanded rw v
controlled_by-IsHanded accepted e o rw v = still-IsHanded rw v
controlled_by-IsHanded rejected e o rw v = still-IsHanded rw v
controlled_by-IsHanded (other_state s) e o rw v = still-IsHanded rw v

relay-IsHanded :
    (msg : WorkerMsg) (rw : RemoteWorker) → IsRunning msg → IsReceiving rw → IsHanded (relay msg rw)
unfolding relay
relay-IsHanded msg rw h (p, v) =
    subst (λ q. Handed q rw.id (rw.updates ++ (msg ∷ [])) rw.unregistered) (sym p)
      (All-append IsRunning rw.updates (msg ∷ []) v.running (h, tt), v.registered)

updated_by-IsHanded :
    (s : WorkerState) (msg : WorkerMsg) (rw : RemoteWorker)
    → msg.state ≡ s
    → IsReceiving rw
    → IsHanded (updated_by s msg rw)
unfolding updated_by
updated_by-IsHanded failed msg rw q v = finish-IsHanded _ rw v.1
updated_by-IsHanded completed msg rw q (p, v) =
    unfold finish relay in
    ((rw.updates, msg, refl, v.running, q), ap (λ l. l ++ ((rw.id, none) ∷ [])) v.registered)
updated_by-IsHanded testing msg rw q v = relay-IsHanded msg rw (ap is_running_state q) v
updated_by-IsHanded connected msg rw q v = relay-IsHanded msg rw (ap is_running_state q) v
updated_by-IsHanded accepted msg rw q v = relay-IsHanded msg rw (ap is_running_state q) v
updated_by-IsHanded rejected msg rw q v = relay-IsHanded msg rw (ap is_running_state q) v
updated_by-IsHanded (other_state s) msg rw q v = relay-IsHanded msg rw (ap is_running_state q) v

receive_update-IsHanded :
    (r : Result Failure WorkerMsg) (rw : RemoteWorker)
    → IsReceiving rw
    → IsHanded (receive_update r rw)
unfolding receive_update
receive_update-IsHanded (err e) rw v = finish-IsHanded _ rw v.1
receive_update-IsHanded (ok msg) rw v = updated_by-IsHanded msg.state msg rw refl v

pub dispatch-IsHanded :
    (p : Phase) (e : Event) (rw : RemoteWorker)
    → rw.phase ≡ p
    → Handed p rw.id rw.updates rw.unregistered
    → IsHanded rw
    → IsHanded (dispatch p e rw)
unfolding dispatch
dispatch-IsHanded reading_id (read r) rw q (h, k) v = read_id-IsHanded r rw h k
dispatch-IsHanded registering (registration a cfg o) rw q (h, k) v =
    register-IsHanded a cfg o rw h k
dispatch-IsHanded waiting_start (control s e o) rw q (h, k) v =
    started_by-IsHanded s _ (pass_on-IsOpen s e o rw (IsOpen-start rw h k))
dispatch-IsHanded waiting_start stop_request rw q (h, k) v =
    finish-IsHanded _ rw (IsOpen-start rw h k)
dispatch-IsHanded receiving (read r) rw q (h, k) v =
    receive_update-IsHanded r rw (q, record { running = h; registered = k })
dispatch-IsHanded receiving (control s e o) rw q (h, k) v =
    controlled_by-IsHanded s e o rw (q, record { running = h; registered = k })
dispatch-IsHanded receiving stop_request rw q (h, k) v =
    finish-IsHanded _ rw (record { running = h; registered = k })
dispatch-IsHanded _ _ rw q w v = v

step-IsHanded : (rw : RemoteWorker) (e : Event) → IsHanded rw → IsHanded (step rw e)
unfolding step
step-IsHanded rw e v = dispatch-IsHanded rw.phase e rw refl v v

run_from-IsHanded : (es : List Event) (rw : RemoteWorker) → IsHanded rw → IsHanded (run rw es)
unfolding run
run_from-IsHanded [] rw v = v
run_from-IsHanded (e ∷ es) rw v = run_from-IsHanded es (step rw e) (step-IsHanded rw e v)

-- Whatever a worker, the coordinator and the connection do: an update in the state `failed` is never
-- handed to the coordinator, and none is before the test has begun; the worker is unregistered exactly
-- when its loop returns, once, under its ID and with the error that the loop returns; and it returns
-- nil exactly after it has handed over an update in the state `completed`, the only such one and the
-- last.
pub run-IsHanded : (es : List Event) → IsHanded (run new_remote_worker es)
run-IsHanded es = run_from-IsHanded es new_remote_worker (unfold new_remote_worker in (refl, refl))
