-- ===== src/Worker/Messages.antt =====
-- What a worker writes to the coordinator where its `Run` returns nil (pkg/loadtest/worker.go).
use perpx_load_test.Base.{
  ◌≡◌, refl, sym, ap, subst, ◌∙◌, Bool, true, false, String, Option, none, some, List, [], ◌∷◌,
  ◌++◌, append_nil, append_assoc, All, Result, ok, err,
}
use perpx_load_test.Base.Int.{pos}
use perpx_load_test.Config.{Config, ConfigError, Registry, validate}
use perpx_load_test.Transactor.{StopError}
use perpx_load_test.Protocol.{
  WorkerState, connected, accepted, rejected, testing, failed, completed, other_state, Failure,
  WorkerMsg, blank,
}
use perpx_load_test.Coordinator.{Progress, going, done}
use perpx_load_test.Group.{Group, new_group, add_all, set_progress_callback}
use perpx_load_test.Worker.{
  Worker, Report, report_progress, progress_msg, sent, Surroundings, write, take_config,
  accepted_with, answered_by, registered_by, register, wait_for_start, report, final_report,
  finished_with, wait_group, filled_with, execute_load_test, or_fail, and_then, close_after,
  session, run, connect, Dial, dialled, dial_timeout, dial_cancelled, dial_again,
}
use perpx_load_test.Worker.Reports.{and_then-done, or_fail-done, wait_for_start-same}

-- A worker's messages between its first and its last one.
abbrev pub AreReports : List WorkerMsg → Type 0
AreReports = All (λ m. m.state ≡ testing)

-- The worker has written some messages after those it had written, and keeps its ID.
abbrev pub Adds : List WorkerMsg → Worker → Worker → Type 0
Adds ms w v = (v.outbox ≡ w.outbox ++ ms) × (v.id ≡ w.id)

take_config-Adds :
    (o : Option ConfigError) (early : Bool) (c : Config) (w : Worker)
    → (take_config o early c w).1 ≡ done none
    → Adds [] w (take_config o early c w).0
unfolding take_config
take_config-Adds (some e) early c w h = cc
take_config-Adds none true c w h = cc
take_config-Adds none false c w h = (append_nil w.outbox, refl)

accepted_with-Adds :
    (reg : Registry) (early : Bool) (o : Option Config) (w : Worker)
    → (accepted_with reg early o w).1 ≡ done none
    → Adds [] w (accepted_with reg early o w).0
unfolding accepted_with
accepted_with-Adds reg early none w h = cc
accepted_with-Adds reg early (some c) w h = take_config-Adds (validate reg c) early c w h

answered_by-Adds :
    (reg : Registry) (early : Bool) (s : WorkerState) (msg : WorkerMsg) (w : Worker)
    → (answered_by reg early s msg w).1 ≡ done none
    → Adds [] w (answered_by reg early s msg w).0
unfolding answered_by
answered_by-Adds reg early accepted msg w h = accepted_with-Adds reg early msg.config w h
answered_by-Adds reg early connected msg w h = cc
answered_by-Adds reg early rejected msg w h = cc
answered_by-Adds reg early testing msg w h = cc
answered_by-Adds reg early failed msg w h = cc
answered_by-Adds reg early completed msg w h = cc
answered_by-Adds reg early (other_state s) msg w h = cc

registered_by-Adds :
    (reg : Registry) (o : Option Failure) (r : Result Failure WorkerMsg) (early : Bool) (w : Worker)
    → (registered_by reg o r early w).1 ≡ done none
    → Adds [] w (registered_by reg o r early w).0
unfolding registered_by
registered_by-Adds reg (some e) r early w h = cc
registered_by-Adds reg none (err e) early w h = cc
registered_by-Adds reg none (ok msg) early w h = answered_by-Adds reg early msg.state msg w h

-- The message with which a worker asks to be registered.
abbrev pub hello : String → WorkerMsg
hello id = record blank { id = id }

registered_by-Told :
    (reg : Registry) (o : Option Failure) (r : Result Failure WorkerMsg) (early : Bool) (w : Worker)
    → (registered_by reg o r early (sent o (hello w.id) w)).1 ≡ done none
    → Adds (hello w.id ∷ []) w (registered_by reg o r early (sent o (hello w.id) w)).0
unfolding sent write
registered_by-Told reg (some e) r early w h = unfold registered_by in cc
registered_by-Told reg none r early w h =
    let (q, i) = registered_by-Adds reg none r early _ h in
    (q ∙ sym (append_nil (w.outbox ++ (hello w.id ∷ []))), i)

register-Adds :
    (reg : Registry) (s : Surroundings) (w : Worker)
    → (register reg s w).1 ≡ done none
    → Adds (hello w.id ∷ []) w (register reg s w).0
unfolding register
register-Adds reg s w h = registered_by-Told reg s.hello_outcome s.answer s.cancelled_early w h

-- The worker's part of the test: reports, and the last one.
abbrev Reported : Worker → Worker → Type 0
Reported w v =
    (ms : List WorkerMsg) × (last : WorkerMsg) × AreReports ms
    × (last.state ≡ completed)
    × Adds (ms ++ (last ∷ [])) w v

append-All : (us ms : List WorkerMsg) → AreReports us → AreReports ms → AreReports (us ++ ms)
append-All [] ms a v = v
append-All (m ∷ us) ms (q, a) v = (q, append-All us ms a v)

-- A tick of the reporter adds one report, or none where its write fails.
report_progress-Adds :
    (r : Report) (o : Option Failure) (w : Worker)
    → r.outcome ≡ o
    → (ms : List WorkerMsg) × AreReports ms × Adds ms w (report_progress r w)
unfolding report_progress sent write
report_progress-Adds r none w q = (progress_msg w.id r ∷ [], (refl, tt), rw q (refl, refl))
report_progress-Adds r (some e) w q = ([], tt, rw q (append_nil w.outbox, refl))

report-Adds :
    (rs : List Report) (w : Worker)
    → (ms : List WorkerMsg) × AreReports ms × Adds ms w (report rs w)
unfolding report
report-Adds [] w = ([], tt, (append_nil w.outbox, refl))
report-Adds (r ∷ rs) w =
    let (us, a, (p, j)) = report_progress-Adds r r.outcome w refl in
    let (ms, v, (q, i)) = report-Adds rs _ in
    (us ++ ms, append-All us ms a v, (q ∙ ap (λ o. o ++ ms) p ∙ append_assoc w.outbox us ms, i ∙ j))

finished_with-Adds :
    (e : Option StopError) (outcome : Option Failure) (w : Worker)
    → (finished_with e outcome w).1 ≡ done none
    → (last : WorkerMsg) × (last.state ≡ completed)
      × Adds (last ∷ []) w (finished_with e outcome w).0
unfolding finished_with sent write final_report
finished_with-Adds (some e) outcome w h = cc
finished_with-Adds none (some e) w h = cc
finished_with-Adds none none w h = (final_report w, refl, (refl, refl))

filled_with-Reported :
    (s : Surroundings) (w : Worker) (r : Group × Option Failure)
    → (filled_with s w r).1 ≡ done none
    → Reported w (filled_with s w r).0
unfolding filled_with wait_group
filled_with-Reported s w (g, some e) h = cc
filled_with-Reported s w (g, none) h =
    let started : Worker = record w {
      group =
          perpx_load_test.Group.start s.start_time s.events
            (set_progress_callback (pos 3_000_000_000) g);
    } in
    let reported = report s.reports started in
    let waited = perpx_load_test.Group.wait reported.group in
    let (ms, v, (q, i)) = report-Adds s.reports started in
    let (last, c, (p, j)) =
      finished_with-Adds waited.1 s.final_outcome (record reported { group = waited.0 }) h in
    (
      ms,
      last,
      v,
      c,
      (p ∙ ap (λ o. o ++ (last ∷ [])) q ∙ append_assoc w.outbox ms (last ∷ []), j ∙ i),
    )

execute-Reported :
    (s : Surroundings) (o : Option Config) (w : Worker)
    → (execute_load_test s o w).1 ≡ done none
    → Reported w (execute_load_test s o w).0
unfolding execute_load_test
execute-Reported s none w h = cc
execute-Reported s (some c) w h =
    filled_with-Reported s w (add_all s.refused s.closes c new_group) h

connect-same : (ds : List Dial) (w : Worker) → (connect ds w).0 ≡ w
unfolding connect
connect-same [] w = refl
connect-same (dialled ∷ ds) w = refl
connect-same (dial_timeout ∷ ds) w = refl
connect-same (dial_cancelled ∷ ds) w = refl
connect-same (dial_again ∷ ds) w = connect-same ds w

-- All that a worker writes in a session that returns nil.
abbrev pub Told : Worker → Worker → Type 0
Told w v =
    (ms : List WorkerMsg) × (last : WorkerMsg) × AreReports ms
    × (last.state ≡ completed)
    × Adds (hello w.id ∷ ms ++ (last ∷ [])) w v

waited-Told :
    (s : Surroundings) (w v : Worker)
    → Adds (hello w.id ∷ []) w v
    → (or_fail (execute_load_test s v.cfg v)).1 ≡ done none
    → Told w (or_fail (execute_load_test s v.cfg v)).0
waited-Told s w v (q, i) h =
    let same = or_fail-done (execute_load_test s v.cfg v) h in
    let (ms, last, a, c, (p, j)) = execute-Reported s v.cfg v (ap (λ r. r.1) (sym same) ∙ h) in
    subst (λ r. Told w r.0) (sym same)
      (
        ms,
        last,
        a,
        c,
        (
          p
              ∙ ap (λ o. o ++ (ms ++ (last ∷ []))) q
              ∙ append_assoc w.outbox (hello w.id ∷ []) (ms ++ (last ∷ [])),
          j ∙ i,
        ),
      )

session-Told :
    (reg : Registry) (s : Surroundings) (w : Worker)
    → (session reg s w).1 ≡ done none
    → Told w (session reg s w).0
unfolding session
session-Told reg s w h =
    let start : Worker → Worker × Progress = λ w1. or_fail (wait_for_start s.polls w1) in
    let test : Worker → Worker × Progress = λ w2. or_fail (execute_load_test s w2.cfg w2) in
    let (q, e) = and_then-done (register reg s w) (λ w1. and_then (start w1) test) h in
    let w1 = (register reg s w).0 in
    let h1 = ap (λ r. r.1) (sym e) ∙ h in
    let (q2, e2) = and_then-done (start w1) test h1 in
    let waited =
      ap (λ r. r.0) (or_fail-done (wait_for_start s.polls w1) q2)
      ∙ wait_for_start-same s.polls w1 in
    let told = register-Adds reg s w q in
    subst (λ r. Told w r.0) (sym (e ∙ e2))
      (waited-Told s w (start w1).0 (subst (Adds (hello w.id ∷ []) w) (sym waited) told)
        (ap (λ r. r.1) (sym e2) ∙ h1))

close_after-Told :
    (w : Worker) (p : Worker × Progress)
    → (p.1 ≡ done none → Told w p.0)
    → (close_after p).1 ≡ done none
    → Told w (close_after p).0
unfolding close_after
close_after-Told w (v, going) f h = cc
close_after-Told w (v, done e) f h = f h

pub run-Told :
    (reg : Registry) (s : Surroundings) (w : Worker)
    → (run reg s w).1 ≡ done none
    → Told w (run reg s w).0
unfolding run
run-Told reg s w h =
    let (q, e) = and_then-done (connect s.dials w) (λ w1. close_after (session reg s w1)) h in
    let same = connect-same s.dials w in
    subst (λ r. Told w r.0) (sym e)
      (subst
        (λ v.
          (close_after (session reg s v)).1 ≡ done none → Told w (close_after (session reg s v)).0)
        (sym same) (close_after-Told w (session reg s w) (session-Told reg s w))
        (ap (λ r. r.1) (sym e) ∙ h))
