-- ===== src/Session/Counts.antt =====
-- What the turns of a coordinator count and whom they call (pkg/loadtest/coordinator.go), and lists of
-- remote workers.
use perpx_load_test.Base.{
  ℕ, zero, suc, ◌+◌, ◌≡◌, refl, sym, ap, subst, ◌∙◌, inl, inr, Bool, true, false, String, Option,
  some, List, [], ◌∷◌, ◌++◌, arith, Bool-cases, is_some, lookup, get_elem?, All, All-append,
  if◌then◌else◌,
}
use perpx_load_test.Protocol.{Failure}
use perpx_load_test.RemoteWorker.{RemoteWorker}
use perpx_load_test.Coordinator.{
  Coordinator, Call, answer, start, is_full, register, unregister, record_call, answered,
  after_start, begin_if_full, start_load_test, WaitEvent, register_request, unregister_request,
  connect_timeout, stop_signal, server_stopped, wait_step, Progress, going,
}
use perpx_load_test.Coordinator.Start.{start_each-same}
use perpx_load_test.Session.{put, drained}
use perpx_load_test.Session.Hands.{ended_well}

-- How many event loops have returned nil.
abbrev pub finished_in : List RemoteWorker → ℕ
finished_in [] = 0
finished_in (rw ∷ rws) = ended_well rw.phase + finished_in rws

pub finished_in-append :
    (xs ys : List RemoteWorker) → finished_in (xs ++ ys) ≡ finished_in xs + finished_in ys
finished_in-append [] ys = omega arith
finished_in-append (x ∷ xs) ys = omega (arith, finished_in-append xs ys)

pub finished_in-put :
    (i : ℕ) (old new : RemoteWorker) (rws : List RemoteWorker)
    → get_elem? rws i ≡ some old
    → finished_in (put i (drained new) rws) + ended_well old.phase
      ≡ finished_in rws + ended_well new.phase
finished_in-put i old new [] h = cc
finished_in-put zero old new (x ∷ xs) h =
    let same : x.phase ≡ old.phase = ap (λ r. r.phase) (inj h) in
    let kept : ended_well x.phase ≡ ended_well old.phase = ap ended_well same in omega (arith, kept)
  where
    inj : {a b : RemoteWorker} → some a ≡ some b → a ≡ b
    inj q = cc
finished_in-put (suc i) old new (x ∷ xs) h = omega (arith, finished_in-put i old new xs h)

pub All-put :
    (P : RemoteWorker → Type 0) (i : ℕ) (new : RemoteWorker) (rws : List RemoteWorker)
    → P new
    → All P rws
    → All P (put i new rws)
All-put P i new [] p ps = tt
All-put P zero new (x ∷ xs) p (_, ps) = (p, ps)
All-put P (suc i) new (x ∷ xs) p (q, ps) = (q, All-put P i new xs p ps)

pub All-get {ℓ} :
    {A : Type ℓ} (P : A → Type 0) (xs : List A) (i : ℕ) (a : A)
    → All P xs
    → get_elem? xs i ≡ some a
    → P a
All-get P [] i a ps h = cc
All-get P (x ∷ xs) zero a (p, ps) h = subst P (inj h) p
  where
    inj : some x ≡ some a → x ≡ a
    inj q = cc
All-get P (x ∷ xs) (suc i) a (p, ps) h = All-get P xs i a ps h

-- A call other than `StartLoadTest`.
abbrev pub IsNoStart : Call → Type 0
IsNoStart (start i) = ⊥
IsNoStart _ = Unit

-- What a call or an early return of the registry leaves alone.
abbrev Keeps : Coordinator → Coordinator → Type 0
Keeps c d = (d.calls ≡ c.calls) × (d.coord_cfg ≡ c.coord_cfg)

either_Keeps :
    (b : Bool) (c : Coordinator) (x y : Coordinator × Option Failure)
    → Keeps c x.0
    → Keeps c y.0
    → Keeps c (if b then x else y).0
either_Keeps true c x y v w = v
either_Keeps false c x y v w = w

register-Keeps : (id : String) (handle : ℕ) (c : Coordinator) → Keeps c (register id handle c).0
unfolding register
register-Keeps id handle c =
    either_Keeps (is_full c) c _ _ (refl, refl)
      (either_Keeps (is_some (lookup id c.workers)) c _ _ (refl, refl) (refl, refl))

-- A turn of the waiting loop keeps what is configured, and begins no test unless the loop returns.
pub record IsPatient (c : Coordinator) (r : Coordinator × Progress) : Type 0 where
  pub configured : r.0.coord_cfg ≡ c.coord_cfg
  pub quiet : r.1 ≡ going → All IsNoStart c.calls → All IsNoStart r.0.calls

begin_if_full-IsPatient :
    (outcome : ℕ → Option Failure) (c : Coordinator) → IsPatient c (begin_if_full outcome c)
unfolding begin_if_full start_load_test after_start
begin_if_full-IsPatient outcome c = elim (Bool-cases (is_full c)) [
  | inl e ↦
      rw e (record { configured = (start_each-same outcome c.workers c).1; quiet = λ h v. cc })
  | inr e ↦ rw e (record { configured = refl; quiet = λ h v. v })
]

answered-calls :
    (handle : ℕ) (r : Coordinator × Option Failure)
    → All IsNoStart r.0.calls
    → All IsNoStart (answered handle r).calls
unfolding answered record_call
answered-calls handle (c, e) v = All-append IsNoStart c.calls (answer handle e ∷ []) v (tt, tt)

answered-configured :
    (handle : ℕ) (r : Coordinator × Option Failure) → (answered handle r).coord_cfg ≡ r.0.coord_cfg
unfolding answered record_call
answered-configured handle (c, e) = refl

pub wait_step-IsPatient : (c : Coordinator) (w : WaitEvent) → IsPatient c (wait_step c w)
unfolding wait_step unregister
wait_step-IsPatient c (register_request id handle outcome) =
    let r = register id handle c in
    let (calls, cfg) = register-Keeps id handle c in
    let p = begin_if_full-IsPatient outcome (answered handle r) in
    record {
      configured = p.configured ∙ answered-configured handle r ∙ cfg;
      quiet = λ h v. p.quiet h (answered-calls handle r (subst (All IsNoStart) (sym calls) v));
    }
wait_step-IsPatient c (unregister_request id e) = record { configured = refl; quiet = λ h v. v }
wait_step-IsPatient c connect_timeout = record { configured = refl; quiet = λ h v. v }
wait_step-IsPatient c stop_signal = record { configured = refl; quiet = λ h v. v }
wait_step-IsPatient c server_stopped = record { configured = refl; quiet = λ h v. v }
