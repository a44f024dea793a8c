-- ===== src/Worker/Reports.antt =====
-- What a worker has done when its `Run` returns nil (pkg/loadtest/worker.go).
use perpx_load_test.Base.{
  ℕ, ◌≡◌, refl, sym, ap, subst, ◌∙◌, Bool, true, false, Option, none, some, List, [], ◌∷◌, ◌++◌,
  Result, ok, err, get_elem?,
}
use perpx_load_test.Config.{Config, ConfigError, Registry, validate}
use perpx_load_test.Transactor.{Transactor, StopError}
use perpx_load_test.Protocol.{
  WorkerState, connected, accepted, rejected, testing, failed, completed, other_state, Failure,
  WorkerMsg,
}
use perpx_load_test.Coordinator.{Progress, going, done}
use perpx_load_test.Group.{Group, new_group, add_all, track, track_each}
use perpx_load_test.Group.Waiting.{IsTracked, AllClean, wait-IsFinal}
use perpx_load_test.Worker.{
  Worker, Report, report_progress, sent, Surroundings, connect, Poll, polled, silent, write,
  take_config, accepted_with, answered_by, registered_by, register, wait_for_start, report,
  final_report, finished_with, wait_group, filled_with, execute_load_test, or_fail, and_then,
  close_after, session, run,
}

-- The worker has a configuration that it has found valid.
abbrev pub IsConfigured : Registry → Worker → Type 0
IsConfigured reg w = (c : Config) × (w.cfg ≡ some c) × (validate reg c ≡ none)

-- All transactors have ended without an error, and the last message gives their final counts.
pub record IsFinished (w : Worker) : Type 0 where
  pub clean : AllClean w.group.transactors
  pub counted :
      (i : ℕ) (t : Transactor) → get_elem? w.group.transactors i ≡ some t → IsTracked i t w.group
  pub told : (front : List WorkerMsg) × (w.outbox ≡ front ++ (final_report w ∷ []))

pub record IsReported (reg : Registry) (w : Worker) : Type 0 where
  pub configured : IsConfigured reg w
  pub finished : IsFinished w
  pub disconnected : w.closed ≡ true

pub and_then-done :
    (p : Worker × Progress) (k : Worker → Worker × Progress)
    → (and_then p k).1 ≡ done none
    → (p.1 ≡ done none) × (and_then p k ≡ k p.0)
unfolding and_then
and_then-done (w, going) k h = cc
and_then-done (w, done none) k h = (refl, refl)
and_then-done (w, done (some e)) k h = cc

pub or_fail-done : (p : Worker × Progress) → (or_fail p).1 ≡ done none → or_fail p ≡ p
unfolding or_fail
or_fail-done (w, going) h = refl
or_fail-done (w, done none) h = refl
or_fail-done (w, done (some e)) h = cc

take_config-valid :
    (reg : Registry) (o : Option ConfigError) (early : Bool) (c : Config) (w : Worker)
    → validate reg c ≡ o
    → (take_config o early c w).1 ≡ done none
    → IsConfigured reg (take_config o early c w).0
unfolding take_config
take_config-valid reg (some e) early c w q h = cc
take_config-valid reg none true c w q h = cc
take_config-valid reg none false c w q h = (c, refl, q)

accepted_with-valid :
    (reg : Registry) (early : Bool) (o : Option Config) (w : Worker)
    → (accepted_with reg early o w).1 ≡ done none
    → IsConfigured reg (accepted_with reg early o w).0
unfolding accepted_with
accepted_with-valid reg early none w h = cc
accepted_with-valid reg early (some c) w h = take_config-valid reg (validate reg c) early c w refl h

answered_by-valid :
    (reg : Registry) (early : Bool) (s : WorkerState) (msg : WorkerMsg) (w : Worker)
    → (answered_by reg early s msg w).1 ≡ done none
    → IsConfigured reg (answered_by reg early s msg w).0
unfolding answered_by
answered_by-valid reg early accepted msg w h = accepted_with-valid reg early msg.config w h
answered_by-valid reg early connected msg w h = cc
answered_by-valid reg early rejected msg w h = cc
answered_by-valid reg early testing msg w h = cc
answered_by-valid reg early failed msg w h = cc
answered_by-valid reg early completed msg w h = cc
answered_by-valid reg early (other_state s) msg w h = cc

registered_by-valid :
    (reg : Registry) (o : Option Failure) (r : Result Failure WorkerMsg) (early : Bool) (w : Worker)
    → (registered_by reg o r early w).1 ≡ done none
    → IsConfigured reg (registered_by reg o r early w).0
unfolding registered_by
registered_by-valid reg (some e) r early w h = cc
registered_by-valid reg none (err e) early w h = cc
registered_by-valid reg none (ok msg) early w h = answered_by-valid reg early msg.state msg w h

register-valid :
    (reg : Registry) (s : Surroundings) (w : Worker)
    → (register reg s w).1 ≡ done none
    → IsConfigured reg (register reg s w).0
unfolding register
register-valid reg s w h = registered_by-valid reg s.hello_outcome s.answer s.cancelled_early _ h

pub wait_for_start-same : (ps : List Poll) (w : Worker) → (wait_for_start ps w).0 ≡ w
unfolding wait_for_start
wait_for_start-same [] w = refl
wait_for_start-same (polled msg ∷ ps) w = refl
wait_for_start-same (silent true ∷ ps) w = refl
wait_for_start-same (silent false ∷ ps) w = wait_for_start-same ps w

track_each-same :
    (k : ℕ) (ts : List Transactor) (g : Group) → (track_each k ts g).transactors ≡ g.transactors
unfolding track_each track
track_each-same k [] g = refl
track_each-same k (t ∷ ts) g = track_each-same _ ts (track k t.tx_count t.tx_bytes g)

wait-same : (g : Group) → (perpx_load_test.Group.wait g).0.transactors ≡ g.transactors
unfolding perpx_load_test.Group.wait
wait-same g = track_each-same 0 g.transactors g

waited-IsFinished :
    (g : Group) (e : Option StopError) (outcome : Option Failure) (w : Worker)
    → (perpx_load_test.Group.wait g).1 ≡ e
    → w.group ≡ (perpx_load_test.Group.wait g).0
    → (finished_with e outcome w).1 ≡ done none
    → IsFinished (finished_with e outcome w).0 × ((finished_with e outcome w).0.cfg ≡ w.cfg)
unfolding finished_with sent write
waited-IsFinished g (some x) outcome w q r h = cc
waited-IsFinished g none (some e) w q r h = cc
waited-IsFinished g none none w q r h =
    let same = ap (λ d. d.transactors) r ∙ wait-same g in
    (
      record {
        clean = subst AllClean (sym same) ((wait-IsFinal g).clean.0 q);
        counted = λ i t k.
            subst (IsTracked i t) (sym r)
              ((wait-IsFinal g).tracked i t (ap (λ ts. get_elem? ts i) (sym same) ∙ k));
        told = (w.outbox, unfold final_report in refl);
      },
      refl,
    )

report_progress-cfg :
    (r : Report) (o : Option Failure) (w : Worker)
    → r.outcome ≡ o
    → (report_progress r w).cfg ≡ w.cfg
unfolding report_progress sent write
report_progress-cfg r none w q = rw q refl
report_progress-cfg r (some e) w q = rw q refl

report-same : (rs : List Report) (w : Worker) → ((report rs w).cfg ≡ w.cfg)
unfolding report
report-same [] w = refl
report-same (r ∷ rs) w = report-same rs _ ∙ report_progress-cfg r r.outcome w refl

wait_group-IsFinished :
    (outcome : Option Failure) (w : Worker)
    → (wait_group outcome w).1 ≡ done none
    → IsFinished (wait_group outcome w).0 × ((wait_group outcome w).0.cfg ≡ w.cfg)
unfolding wait_group
wait_group-IsFinished outcome w h =
    waited-IsFinished w.group (perpx_load_test.Group.wait w.group).1 outcome
      (record w { group = (perpx_load_test.Group.wait w.group).0 }) refl refl h

filled_with-IsFinished :
    (s : Surroundings) (w : Worker) (r : Group × Option Failure)
    → (filled_with s w r).1 ≡ done none
    → IsFinished (filled_with s w r).0 × ((filled_with s w r).0.cfg ≡ w.cfg)
unfolding filled_with
filled_with-IsFinished s w (g, some e) h = cc
filled_with-IsFinished s w (g, none) h =
    let (p, q) = wait_group-IsFinished s.final_outcome _ h in (p, q ∙ report-same s.reports _)

execute-IsFinished :
    (s : Surroundings) (o : Option Config) (w : Worker)
    → (execute_load_test s o w).1 ≡ done none
    → IsFinished (execute_load_test s o w).0 × ((execute_load_test s o w).0.cfg ≡ w.cfg)
unfolding execute_load_test
execute-IsFinished s none w h = cc
execute-IsFinished s (some c) w h =
    filled_with-IsFinished s w (add_all s.refused s.closes c new_group) h

-- What a session that returns nil leaves.
abbrev Succeeds : Registry → Worker × Progress → Type 0
Succeeds reg p = p.1 ≡ done none → IsConfigured reg p.0 × IsFinished p.0

and_then-Succeeds :
    (reg : Registry) (p : Worker × Progress) (k : Worker → Worker × Progress)
    → (p.1 ≡ done none → Succeeds reg (k p.0))
    → Succeeds reg (and_then p k)
and_then-Succeeds reg p k f h =
    let (q, e) = and_then-done p k h in
    subst (λ r. IsConfigured reg r.0 × IsFinished r.0) (sym e) (f q (ap (λ r. r.1) (sym e) ∙ h))

or_fail-Succeeds :
    (reg : Registry) (p : Worker × Progress) → Succeeds reg p → Succeeds reg (or_fail p)
or_fail-Succeeds reg p f h =
    let e = or_fail-done p h in
    subst (λ r. IsConfigured reg r.0 × IsFinished r.0) (sym e) (f (ap (λ r. r.1) (sym e) ∙ h))

tested-Succeeds :
    (reg : Registry) (s : Surroundings) (w : Worker)
    → IsConfigured reg w
    → Succeeds reg (execute_load_test s w.cfg w)
tested-Succeeds reg s w (c, q, v) h =
    let (f, same) = execute-IsFinished s w.cfg w h in ((c, same ∙ q, v), f)

or_fail-IsConfigured :
    (reg : Registry) (s : Surroundings) (w : Worker)
    → IsConfigured reg w
    → (or_fail (wait_for_start s.polls w)).1 ≡ done none
    → IsConfigured reg (or_fail (wait_for_start s.polls w)).0
or_fail-IsConfigured reg s w v h =
    subst (IsConfigured reg)
      (sym
        (ap (λ r. r.0) (or_fail-done (wait_for_start s.polls w) h) ∙ wait_for_start-same s.polls w))
      v

session-Succeeds : (reg : Registry) (s : Surroundings) (w : Worker) → Succeeds reg (session reg s w)
unfolding session
session-Succeeds reg s w = and_then-Succeeds reg (register reg s w) _ (λ q.
    and_then-Succeeds reg (or_fail (wait_for_start s.polls (register reg s w).0)) _ (λ q2.
      or_fail-Succeeds reg _
        (tested-Succeeds reg s _ (or_fail-IsConfigured reg s _ (register-valid reg s w q) q2))))

closed-IsReported :
    (reg : Registry) (p : Worker × Progress)
    → Succeeds reg p
    → (close_after p).1 ≡ done none
    → IsReported reg (close_after p).0
unfolding close_after
closed-IsReported reg (w, going) f h = cc
closed-IsReported reg (w, done e) f h =
    let (c, v) = f h in
    record {
      configured = c;
      finished = record {
        clean = v.clean;
        counted = v.counted;
        told = (v.told.0, unfold final_report in v.told.1);
      };
      disconnected = refl;
    }

pub run-IsReported :
    (reg : Registry) (s : Surroundings) (w : Worker)
    → (run reg s w).1 ≡ done none
    → IsReported reg (run reg s w).0
unfolding run
run-IsReported reg s w h =
    let (q, e) = and_then-done (connect s.dials w) (λ w1. close_after (session reg s w1)) h in
    subst (λ r. IsReported reg r.0) (sym e)
      (closed-IsReported reg (session reg s (connect s.dials w).0) (session-Succeeds reg s _)
        (ap (λ r. r.1) (sym e) ∙ h))
