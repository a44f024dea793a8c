-- ===== src/Transactor/Ticks.antt =====
-- What a tick leaves of the frames and the stop flag (pkg/loadtest/transactor.go).
use perpx_load_test.Base.{
  ℕ, zero, suc, ◌≡◌, refl, ◌∙◌, Bool, true, false, Option, none, some, List, [], ◌∷◌, ◌++◌, is_some,
}
use perpx_load_test.Base.Int.{ℤ, pos_part}
use perpx_load_test.Transactor.{
  StopError, Frame, tx, ping, close, Phase, returned, Transactor, Attempt, Batch, empty_batch,
  to_send, seconds, batch_loop, send_batch, stop_on, send_transactions, report_to, Tick, send_tick,
  progress_tick, ping_tick, time_limit, handle_tick,
}
use perpx_load_test.Transactor.Limit.{send-config}
use perpx_load_test.Transactor.Batches.{Round, failed, late, in_time, batch_loop-Round}

abbrev pub has_close : List Frame → Bool
has_close [] = false
has_close (tx len ∷ fs) = has_close fs
has_close (ping ∷ fs) = has_close fs
has_close (close ∷ fs) = true

-- Until the loop has returned nothing written is a close frame; then at most the last one is.
abbrev pub FramesFit : Phase → List Frame → Type 0
FramesFit returned (close ∷ fs) = has_close fs ≡ false
FramesFit _ fs = has_close fs ≡ false

-- The frames fit the phase, and the loop has not returned without the stop flag.
pub record IsOrderly (t : Transactor) : Type 0 where
  pub frames_fit : FramesFit t.phase t.frames
  pub stop_first : t.phase ≡ returned → t.stop ≡ true

-- A tick adds no close frame and keeps a stop flag and a stop error that are set.
pub record IsTickOf (t u : Transactor) : Type 0 where
  pub no_close : has_close u.frames ≡ has_close t.frames
  pub keeps_stop : t.stop ≡ true → u.stop ≡ true
  pub keeps_err : is_some t.stop_err ≡ true → is_some u.stop_err ≡ true

has_close-append : (fs gs : List Frame) → has_close fs ≡ false → has_close (fs ++ gs) ≡ has_close gs
has_close-append [] gs h = refl
has_close-append (tx len ∷ fs) gs h = has_close-append fs gs h
has_close-append (ping ∷ fs) gs h = has_close-append fs gs h
has_close-append (close ∷ fs) gs h = cc

Round-no_close :
    {left : ℕ} {attempts : ℕ → Attempt} {period : ℤ} {b r : Batch}
    → Round left attempts period b r
    → ((c : Batch)
        → has_close c.batch_frames ≡ false
        → has_close (batch_loop left attempts period c).batch_frames ≡ false)
    → has_close b.batch_frames ≡ false
    → has_close r.batch_frames ≡ false
Round-no_close (failed e) rest h = h
Round-no_close (late len elapsed q k) rest h = h
Round-no_close (in_time len elapsed q k) rest h = rest _ h

batch_loop-no_close :
    (left : ℕ) (attempts : ℕ → Attempt) (period : ℤ) (b : Batch)
    → has_close b.batch_frames ≡ false
    → has_close (batch_loop left attempts period b).batch_frames ≡ false
batch_loop-no_close zero attempts period b h = unfold batch_loop in h
batch_loop-no_close (suc left) attempts period b h =
    Round-no_close (batch_loop-Round left attempts period b)
      (batch_loop-no_close left attempts period) h

send_batch-no_close :
    (attempts : ℕ → Attempt) (t : Transactor)
    → has_close (send_batch attempts t).batch_frames ≡ false
unfolding send_batch
send_batch-no_close attempts t =
    batch_loop-no_close (pos_part (to_send t)) attempts (seconds t.config.send_period) empty_batch
      refl

stop_on-IsTickOf :
    (e : Option StopError) (t u : Transactor) → IsTickOf t u → IsTickOf t (stop_on e u)
unfolding stop_on
stop_on-IsTickOf none t u w = w
stop_on-IsTickOf (some e) t u w = record {
  no_close = w.no_close;
  keeps_stop = λ h. refl;
  keeps_err = λ h. refl;
}

pub unchanged : (t : Transactor) → IsTickOf t t
unchanged t = record { no_close = refl; keeps_stop = λ h. h; keeps_err = λ h. h }

report_to-IsTickOf : (o : Option ℕ) (t : Transactor) → IsTickOf t (report_to o t)
unfolding report_to
report_to-IsTickOf none t = unchanged t
report_to-IsTickOf (some id) t = record { no_close = refl; keeps_stop = λ h. h; keeps_err = λ h. h }

send-IsTickOf :
    (begun ended : ℤ) (attempts : ℕ → Attempt) (t : Transactor)
    → IsTickOf t (send_transactions begun ended attempts t).0
send-IsTickOf begun ended attempts t =
    let (_, s, e, f) = send-config begun ended attempts t in
    record {
      no_close = rw f (
          has_close-append (send_batch attempts t).batch_frames t.frames
            (send_batch-no_close attempts t));
      keeps_stop = λ h. s ∙ h;
      keeps_err = λ h. rw e h;
    }

pub handle_tick-IsTickOf : (tick : Tick) (t : Transactor) → IsTickOf t (handle_tick tick t)
unfolding handle_tick
handle_tick-IsTickOf (send_tick begun ended attempts) t =
    stop_on-IsTickOf _ t _ (send-IsTickOf begun ended attempts t)
handle_tick-IsTickOf progress_tick t = report_to-IsTickOf t.progress_callback t
handle_tick-IsTickOf (ping_tick none) t = record {
  no_close = refl;
  keeps_stop = λ h. h;
  keeps_err = λ h. h;
}
handle_tick-IsTickOf (ping_tick (some e)) t = record {
  no_close = refl;
  keeps_stop = λ h. refl;
  keeps_err = λ h. refl;
}
handle_tick-IsTickOf time_limit t = record {
  no_close = refl;
  keeps_stop = λ h. refl;
  keeps_err = λ h. h;
}
