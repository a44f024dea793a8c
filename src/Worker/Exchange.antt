-- ===== src/Worker/Exchange.antt =====
-- What a worker writes (pkg/loadtest/worker.go), read by its remote worker at the coordinator
-- (pkg/loadtest/remote_worker.go).
use perpx_load_test.Base.{
  ◌≡◌, refl, sym, ap, subst, ◌∙◌, false, String, str_eq, none, List, [], ◌∷◌, ◌++◌, map,
  append_assoc, ok,
}
use perpx_load_test.Config.{Config, Registry}
use perpx_load_test.Protocol.{WorkerState, testing, completed, WorkerMsg, no_text}
use perpx_load_test.Coordinator.{done}
use perpx_load_test.RemoteWorker.{
  RemoteWorker, dispatch, read_id, create_metrics, pass_on, set_state, started_by, receive_update,
  updated_by, relay, finish, reading_id, registering, waiting_start, receiving, ended,
  new_remote_worker, Event, read, registration, control,
}
use perpx_load_test.Worker.{Worker, Surroundings, run}
use perpx_load_test.Worker.Messages.{AreReports, hello, run-Told}

-- A remote worker that receives updates, and the reading of messages.
abbrev pub reads : List WorkerMsg → List Event
reads = map (λ m. read (ok m))

-- The update of a running worker is relayed.
relays :
    (rw : RemoteWorker) (m : WorkerMsg) (s : WorkerState)
    → m.state ≡ s
    → s ≡ testing
    → rw.phase ≡ receiving
    → perpx_load_test.RemoteWorker.step rw (read (ok m)) ≡ relay m rw
unfolding perpx_load_test.RemoteWorker.step
relays rw m s q t p =
    ap (λ x. dispatch x (read (ok m)) rw) p
    ∙ unfold dispatch receive_update in
      ap (λ x. updated_by x m rw) (q ∙ t) ∙ unfold updated_by in refl

-- What is left of a remote worker whose worker has completed.
abbrev pub HasRelayed : List WorkerMsg → RemoteWorker → Type 0
HasRelayed us rw = (rw.phase ≡ ended none) × (rw.updates ≡ us)

completes :
    (rw : RemoteWorker) (m : WorkerMsg)
    → m.state ≡ completed
    → rw.phase ≡ receiving
    → HasRelayed (rw.updates ++ (m ∷ [])) (perpx_load_test.RemoteWorker.step rw (read (ok m)))
unfolding perpx_load_test.RemoteWorker.step
completes rw m q p =
    subst (λ x. HasRelayed (rw.updates ++ (m ∷ [])) (dispatch x (read (ok m)) rw)) (sym p)
      (unfold dispatch receive_update in
        subst (λ x. HasRelayed (rw.updates ++ (m ∷ [])) (updated_by x m rw)) (sym q)
          (unfold updated_by finish relay in (refl, refl)))

all_relayed :
    (ms : List WorkerMsg) (last : WorkerMsg) (rw : RemoteWorker)
    → AreReports ms
    → last.state ≡ completed
    → rw.phase ≡ receiving
    → HasRelayed
        (rw.updates ++ (ms ++ (last ∷ [])))
        (perpx_load_test.RemoteWorker.run rw (reads (ms ++ (last ∷ []))))
unfolding perpx_load_test.RemoteWorker.run
all_relayed [] last rw v c p = completes rw last c p
all_relayed (m ∷ ms) last rw (t, v) c p =
    let next = relays rw m m.state refl t p in
    let rest = all_relayed ms last (relay m rw) v c (unfold relay in p) in
    subst
      (λ x.
        HasRelayed (rw.updates ++ (m ∷ ms ++ (last ∷ [])))
          (perpx_load_test.RemoteWorker.run x (reads (ms ++ (last ∷ [])))))
      (sym next)
      (rest.0, rest.1 ∙ unfold relay in append_assoc rw.updates (m ∷ []) (ms ++ (last ∷ [])))

-- What the remote worker of an accepted worker takes before it is told to begin.
abbrev pub opening : String → Config → List Event
opening id cfg =
    read (ok (hello id)) ∷ registration none cfg none ∷ control testing no_text none ∷ []

-- It has been told to begin, and has handed over nothing.
abbrev IsReady : RemoteWorker → Type 0
IsReady rw = (rw.phase ≡ receiving) × (rw.updates ≡ [])

told_to_begin :
    (id : String) (cfg : Config)
    → IsReady (
        perpx_load_test.RemoteWorker.step
          (perpx_load_test.RemoteWorker.step
            (record new_remote_worker { id = id; phase = registering })
            (registration none cfg none))
          (control testing no_text none))
unfolding perpx_load_test.RemoteWorker.step dispatch perpx_load_test.RemoteWorker.register
    create_metrics perpx_load_test.RemoteWorker.write pass_on set_state started_by new_remote_worker
told_to_begin id cfg = (refl, refl)

greeted :
    (id : String)
    → str_eq id "" ≡ false
    → perpx_load_test.RemoteWorker.step new_remote_worker (read (ok (hello id)))
      ≡ record new_remote_worker { id = id; phase = registering }
unfolding perpx_load_test.RemoteWorker.step dispatch read_id new_remote_worker
greeted id h = rw h refl

opened :
    (id : String) (cfg : Config)
    → str_eq id "" ≡ false
    → IsReady (perpx_load_test.RemoteWorker.run new_remote_worker (opening id cfg))
unfolding perpx_load_test.RemoteWorker.run
opened id cfg h =
    subst
      (λ x. IsReady (
        perpx_load_test.RemoteWorker.step
          (perpx_load_test.RemoteWorker.step x (registration none cfg none))
          (control testing no_text none)))
      (sym (greeted id h)) (told_to_begin id cfg)

-- Where the `Run` of a worker with an ID returns nil, and its remote worker at the coordinator, which
-- the coordinator accepts and tells to begin, reads what the worker has written: the event loop of the
-- remote worker returns nil as well, and every message of the worker after the first has been handed
-- to the coordinator.
pub run-HasRelayed :
    (reg : Registry) (s : Surroundings) (w : Worker) (cfg : Config)
    → str_eq w.id "" ≡ false
    → w.outbox ≡ []
    → (run reg s w).1 ≡ done none
    → (us : List WorkerMsg) × ((run reg s w).0.outbox ≡ hello w.id ∷ us)
      × HasRelayed us (
          perpx_load_test.RemoteWorker.run
            (perpx_load_test.RemoteWorker.run new_remote_worker (opening w.id cfg))
            (reads us))
run-HasRelayed reg s w cfg n o h =
    let (ms, last, a, c, (q, i)) = run-Told reg s w h in
    let (p, u) = opened w.id cfg n in
    let us = ms ++ (last ∷ []) in
    let rw = perpx_load_test.RemoteWorker.run new_remote_worker (opening w.id cfg) in
    (
      us,
      q ∙ ap (λ x. x ++ (hello w.id ∷ us)) o,
      subst (λ x. HasRelayed (x ++ us) (perpx_load_test.RemoteWorker.run rw (reads us))) u
          (all_relayed ms last rw a c p),
    )
