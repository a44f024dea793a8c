-- ===== src/Worker/Interrupts.antt =====
-- The interrupts of a worker (pkg/loadtest/worker.go): what a signal does while the test runs. An
-- interrupt is the change that its function makes to the group.
use perpx_load_test.Base.{Bool, true, false, String, Option, List, [], ◌∷◌, insert, delete}
use perpx_load_test.Base.Int.{ℤ}
use perpx_load_test.Protocol.{Failure}
use perpx_load_test.Transactor.{Event}
use perpx_load_test.Coordinator.{Progress}
use perpx_load_test.Group.{Group, start, resume, cancel_unread}
use perpx_load_test.Worker.{Worker, wait_group, or_fail}

-- The map of interrupts, and whether the channel `stop` is closed.
pub record Interrupts : Type 0 where
  pub table : List (String × (Group → Group))
  pub stop_closed : Bool

unfoldable pub no_interrupts : Interrupts
no_interrupts = record { table = []; stop_closed = false }

-- `setInterrupt`.
unfoldable pub set_interrupt : String → (Group → Group) → Interrupts → Interrupts
set_interrupt id interrupt i = record i { table = insert id interrupt i.table }

-- `removeInterrupt`.
unfoldable pub remove_interrupt : String → Interrupts → Interrupts
remove_interrupt id i = record i { table = delete id i.table }

-- `triggerInterrupts`, in the order of the map.
unfoldable pub trigger_each : List (String × (Group → Group)) → Group → Group
trigger_each [] g = g
trigger_each (e ∷ table) g = trigger_each table (e.1 g)

-- `cancel`, which a signal calls; the channel is closed when the interrupts have returned.
unfoldable pub cancel_worker : Interrupts → Group → Interrupts × Group
unfolding trigger_each
cancel_worker i g = (record i { stop_closed = true }, trigger_each i.table g)

-- `executeLoadTest` of a filled group, of which the transactors meet some events before a signal and
-- some after it, with what `Run` does with its error. When the signal comes, `Wait` has still to read
-- the results of the transactors with `true` in `unread`.
unfoldable pub signalled_test :
    ℤ
    → List (List Event)
    → List Bool
    → List (List Event)
    → Option Failure
    → Worker
    → Worker × Progress
unfolding set_interrupt no_interrupts cancel_worker resume start wait_group or_fail
signalled_test now before unread after outcome w =
    let i = set_interrupt "ExecuteStandalone" (cancel_unread unread) no_interrupts in
    let (_, g) = cancel_worker i (start now before w.group) in
    or_fail (wait_group outcome (record w { group = resume after g }))
