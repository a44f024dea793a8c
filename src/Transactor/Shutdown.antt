-- ===== src/Transactor/Shutdown.antt =====
-- How the send loop ends (`sendLoop`, `setStop` and `close` of pkg/loadtest/transactor.go).
use perpx_load_test.Base.{
  ℕ, ◌≡◌, ◌≢◌, refl, ap, ◌≤◌, sym, ◌∙◌, ◌⊎◌, inl, inr, Bool, true, false, Option, none, some, List,
  [], ◌∷◌, arith, if◌then◌else◌, is_some,
}
use perpx_load_test.Config.{Config}
use perpx_load_test.Transactor.{
  StopError, Frame, tx, ping, close, Phase, at_limit, at_select, at_stop, returned, Transactor,
  set_stop, Tick, cancelled, limit_reached, close_conn, Event, check_limit, fire, check_stop,
  cancel, dispatch, step, run, new_transactor, wait,
}
use perpx_load_test.Transactor.Ticks.{
  has_close, FramesFit, IsOrderly, IsTickOf, unchanged, handle_tick-IsTickOf,
}

returned_fits : (fs : List Frame) → has_close fs ≡ false → FramesFit returned fs
returned_fits [] h = h
returned_fits (tx len ∷ fs) h = h
returned_fits (ping ∷ fs) h = h
returned_fits (close ∷ fs) h = cc

-- What one event keeps, from a phase `p`.
record IsStepOf (p : Phase) (t u : Transactor) : Type 0 where
  fits : FramesFit p t.frames → FramesFit u.phase u.frames
  returns : u.phase ≡ returned → (p ≡ returned) ⊎ (t.stop ≡ true)
  stop_kept : t.stop ≡ true → u.stop ≡ true
  err_kept : is_some t.stop_err ≡ true → is_some u.stop_err ≡ true

-- An event that leaves the frames alone and ends in a phase `q` before the return.
moves :
    (p q : Phase) (t u : Transactor)
    → (FramesFit p t.frames → FramesFit q u.frames)
    → q ≢ returned
    → IsTickOf t u
    → IsStepOf p t (record u { phase = q })
moves p q t u f n w = record {
  fits = f;
  returns = λ e. absurd (n e);
  stop_kept = w.keeps_stop;
  err_kept = w.keeps_err;
}

-- An event that leaves the phase and the frames alone.
stays :
    (p : Phase) (t u : Transactor)
    → t.phase ≡ p
    → u.phase ≡ t.phase
    → u.frames ≡ t.frames
    → IsTickOf t u
    → IsStepOf p t u
stays p t u h q f w = record {
  fits = λ x. rw (q, f, h) x;
  returns = λ e. inl (sym (q ∙ h) ∙ e);
  stop_kept = w.keeps_stop;
  err_kept = w.keeps_err;
}

set_stop-IsTickOf : (e : Option StopError) (t : Transactor) → IsTickOf t (set_stop e t)
unfolding set_stop
set_stop-IsTickOf none t = record { no_close = refl; keeps_stop = λ h. refl; keeps_err = λ h. h }
set_stop-IsTickOf (some e) t = record {
  no_close = refl;
  keeps_stop = λ h. refl;
  keeps_err = λ h. refl;
}

limit-IsTickOf : (b : Bool) (t : Transactor) → IsTickOf t (if b then set_stop none t else t)
limit-IsTickOf true t = set_stop-IsTickOf none t
limit-IsTickOf false t = unchanged t

limit_frames : (b : Bool) (t : Transactor) → (if b then set_stop none t else t).frames ≡ t.frames
unfolding set_stop
limit_frames true t = refl
limit_frames false t = refl

check_stop-IsStepOf :
    (b w : Bool) (t : Transactor)
    → t.stop ≡ b
    → IsStepOf at_stop t
        (if b then record (close_conn w t) { phase = returned } else record t { phase = at_limit })
unfolding close_conn
check_stop-IsStepOf true true t e = record {
  fits = λ h. h;
  returns = λ q. inr e;
  stop_kept = λ h. h;
  err_kept = λ h. h;
}
check_stop-IsStepOf true false t e = record {
  fits = returned_fits t.frames;
  returns = λ q. inr e;
  stop_kept = λ h. h;
  err_kept = λ h. h;
}
check_stop-IsStepOf false w t e = moves at_stop at_limit t t (λ h. h) (λ q. cc) (unchanged t)

dispatch-IsStepOf :
    (p : Phase) (e : Event) (t : Transactor) → t.phase ≡ p → IsStepOf p t (dispatch p e t)
unfolding dispatch
dispatch-IsStepOf at_limit check_limit t h =
    moves at_limit at_select t _ (λ f. rw (limit_frames (limit_reached t) t) f) (λ q. cc)
      (limit-IsTickOf (limit_reached t) t)
dispatch-IsStepOf at_select (fire tick) t h =
    moves at_select at_stop t _ (λ f. (handle_tick-IsTickOf tick t).no_close ∙ f) (λ q. cc)
      (handle_tick-IsTickOf tick t)
dispatch-IsStepOf at_stop (check_stop w) t h = check_stop-IsStepOf t.stop w t refl
dispatch-IsStepOf p cancel t h = stays p t _ h refl refl (set_stop-IsTickOf (some cancelled) t)
dispatch-IsStepOf p _ t h = stays p t t h refl refl (unchanged t)

step-IsStepOf : (t : Transactor) (e : Event) → IsStepOf t.phase t (step t e)
unfolding step
step-IsStepOf t e = dispatch-IsStepOf t.phase e t refl

step-IsOrderly : (t : Transactor) (e : Event) → IsOrderly t → IsOrderly (step t e)
step-IsOrderly t e o =
    let w = step-IsStepOf t e in
    record {
      frames_fit = w.fits o.frames_fit;
      stop_first =
          λ q. elim (w.returns q) [ inl p ↦ w.stop_kept (o.stop_first p) | inr s ↦ w.stop_kept s ];
    }

run_keeps :
    (t : Transactor) (es : List Event)
    → IsOrderly t
    → IsOrderly (run t es)
      × (t.stop ≡ true → (run t es).stop ≡ true)
      × (is_some t.stop_err ≡ true → is_some (run t es).stop_err ≡ true)
unfolding run
run_keeps t [] o = (o, (λ h. h), λ h. h)
run_keeps t (e ∷ es) o =
    let w = step-IsStepOf t e in
    let (a, b, c) = run_keeps (step t e) es (step-IsOrderly t e o) in
    (a, (λ h. b (w.stop_kept h)), λ h. c (w.err_kept h))

-- In every run of a new transactor, a close frame is written at most once, only as the send loop
-- returns and after all else, and the loop returns only once the stop flag is set.
pub run-IsOrderly : (c : Config) (es : List Event) → IsOrderly (run (new_transactor c) es)
unfolding new_transactor
run-IsOrderly c es =
    (run_keeps (new_transactor c) es (record { frames_fit = refl; stop_first = λ q. cc })).0

pub stop_err_sticks :
    (t : Transactor) (es : List Event)
    → is_some t.stop_err ≡ true
    → is_some (run t es).stop_err ≡ true
unfolding run
stop_err_sticks t [] h = h
stop_err_sticks t (e ∷ es) h = stop_err_sticks (step t e) es ((step-IsStepOf t e).err_kept h)

-- A stop flag stays set, and a stop error once recorded is what `Wait` returns, or is replaced by a
-- later one: a later `setStop(nil)` does not clear it.
pub stop_sticks :
    (t : Transactor) (es : List Event)
    → IsOrderly t
    → t.stop ≡ true
    → is_some t.stop_err ≡ true
    → ((run t es).stop ≡ true) × (is_some (wait (run t es)) ≡ true)
unfolding wait
stop_sticks t es o s e = let (_, b, c) = run_keeps t es o in (b s, c e)

-- One turn of the loop.
abbrev pub turn : Tick → Bool → List Event
turn tick close_written = check_limit ∷ fire tick ∷ check_stop close_written ∷ []

pub step-dispatch :
    (p : Phase) (e : Event) (t : Transactor) → t.phase ≡ p → step t e ≡ dispatch p e t
unfolding step
step-dispatch p e t h = ap (λ q. dispatch q e t) h

-- How far through a turn a phase is.
abbrev progress : Phase → ℕ
progress at_limit = 0
progress at_select = 1
progress at_stop = 2
progress returned = 3

past_limit :
    (p : Phase) (t : Transactor) → t.phase ≡ p → 1 ≤ progress (dispatch p check_limit t).phase
unfolding dispatch
past_limit at_limit t h = omega arith
past_limit at_select t h = rw h (omega arith)
past_limit at_stop t h = rw h (omega arith)
past_limit returned t h = rw h (omega arith)

past_select :
    (p : Phase) (tick : Tick) (t : Transactor)
    → t.phase ≡ p
    → 1 ≤ progress p
    → 2 ≤ progress (dispatch p (fire tick) t).phase
unfolding dispatch
past_select at_limit tick t h l = absurd (omega arith)
past_select at_select tick t h l = omega arith
past_select at_stop tick t h l = rw h (omega arith)
past_select returned tick t h l = rw h (omega arith)

past_stop :
    (p : Phase) (w : Bool) (t : Transactor)
    → t.phase ≡ p
    → 2 ≤ progress p
    → t.stop ≡ true
    → (dispatch p (check_stop w) t).phase ≡ returned
unfolding dispatch
past_stop at_limit w t h l s = absurd (omega arith)
past_stop at_select w t h l s = absurd (omega arith)
past_stop at_stop w t h l s = rw s
past_stop returned w t h l s = h

-- Once the stop flag is set, at whatever point of its loop the transactor is, one more turn at most
-- makes it return.
pub stops_within_turn :
    (t : Transactor) (tick : Tick) (w : Bool)
    → t.stop ≡ true
    → (run t (turn tick w)).phase ≡ returned
unfolding run step
stops_within_turn t tick w s =
    let u : Transactor = step t check_limit in
    let v : Transactor = step u (fire tick) in
    past_stop v.phase w v refl (past_select u.phase tick u refl (past_limit t.phase t refl))
      ((step-IsStepOf u (fire tick)).stop_kept ((step-IsStepOf t check_limit).stop_kept s))
