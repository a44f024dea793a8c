-- ===== src/Transactor/Turns.antt =====
-- One turn of the send loop (`sendLoop`, pkg/loadtest/transactor.go), below its limit and at it.
use perpx_load_test.Base.{
  ℕ, ◌+◌, ◌<◌, ◌≡◌, refl, ap, ◌∙◌, ◌⊎◌, Bool, true, false, none, List, [], ◌∷◌, ◌++◌, arith,
  if◌then◌else◌,
}
use perpx_load_test.Base.Int.{ℤ, pos, pos_part}
use perpx_load_test.Config.{Config}
use perpx_load_test.Transactor.{
  Phase, at_limit, at_select, at_stop, returned, Transactor, Attempt, empty_batch, seconds, to_send,
  send_batch, set_stop, stop_on, send_transactions, send_tick, limit_reached, close_conn, Event,
  check_limit, fire, check_stop, dispatch, step, run,
}
use perpx_load_test.Transactor.Batches.{tx_frames, tx_frames-append, batch_loop-full, IsInTime}
use perpx_load_test.Transactor.Limit.{Counted, Counted-same, to_send-min, send-config, send-Counted}
use perpx_load_test.Transactor.Shutdown.{turn, step-dispatch}

-- At a phase `p`, with `k` transactions counted and `j` on the wire, and not stopped.
pub record IsLive (sp : ℤ) (p : Phase) (n r k j : ℕ) (t : Transactor) : Type 0 where
  pub counted : Counted n r k t
  pub period : t.config.send_period ≡ sp
  pub at_phase : t.phase ≡ p
  pub on_wire : tx_frames t.frames ≡ j
  pub running : t.stop ≡ false
  pub no_err : t.stop_err ≡ none

limit_open :
    (n k : ℕ) (t : Transactor)
    → t.config.count ≡ pos n
    → t.tx_count ≡ pos k
    → k < n
    → limit_reached t ≡ false
unfolding limit_reached
limit_open n k t p q h = ground arith

limit_met :
    (n : ℕ) (t : Transactor)
    → t.config.count ≡ pos n
    → t.tx_count ≡ pos n
    → 0 < n
    → limit_reached t ≡ true
unfolding limit_reached
limit_met n t p q h = ground arith

pub check_open :
    {sp : ℤ} {n r k j : ℕ} (t : Transactor)
    → IsLive sp at_limit n r k j t
    → k < n
    → IsLive sp at_select n r k j (step t check_limit)
unfolding dispatch
check_open {n} {r} {k} t l h = rw (step-dispatch at_limit check_limit t l.at_phase) (
    simp (limit_open n k t l.counted.has_limit.limit l.counted.count h) (record {
      counted = Counted-same refl refl l.counted;
      period = l.period;
      at_phase = refl;
      on_wire = l.on_wire;
      running = l.running;
      no_err = l.no_err;
    }))

-- The batch of a turn in which every transaction is written in time.
full_batch :
    {n r k : ℕ} (attempts : ℕ → Attempt) (t : Transactor)
    → Counted n r k t
    → ((j : ℕ) → IsInTime (seconds t.config.send_period) (attempts j))
    → (m : ℕ) × ((send_batch attempts t).sent ≡ m)
      × (tx_frames (send_batch attempts t).batch_frames ≡ m)
      × ((send_batch attempts t).batch_err ≡ none)
      × ((m ≡ r) ⊎ (k + m ≡ n))
unfolding send_batch
full_batch attempts t c h =
    let (m, e, _, reach, _) = to_send-min t c in
    let (p, q, x) =
      batch_loop-full (pos_part (to_send t)) attempts (seconds t.config.send_period) empty_batch
        h in
    (m, omega (arith, p, ap pos_part e), omega (arith, q, ap pos_part e), x, reach)

-- A send tick whose batch has no error.
pub fire_send :
    (begun ended : ℤ) (attempts : ℕ → Attempt) (t : Transactor)
    → t.phase ≡ at_select
    → (send_batch attempts t).batch_err ≡ none
    → step t (fire (send_tick begun ended attempts))
      ≡ record (send_transactions begun ended attempts t).0 { phase = at_stop }
unfolding dispatch
fire_send begun ended attempts t h e =
    step-dispatch at_select (fire (send_tick begun ended attempts)) t h
    ∙ ap (λ x. record (stop_on x (send_transactions begun ended attempts t).0) { phase = at_stop })
        e

fire_full :
    {sp : ℤ} {n r k : ℕ} (begun ended : ℤ) (attempts : ℕ → Attempt) (t : Transactor)
    → IsLive sp at_select n r k k t
    → ((j : ℕ) → IsInTime (seconds sp) (attempts j))
    → (m : ℕ) × IsLive sp at_stop n r
        (k + m)
        (k + m)
        (step t (fire (send_tick begun ended attempts)))
      × ((m ≡ r) ⊎ (k + m ≡ n))
fire_full {n} {r} {k} begun ended attempts t l h =
    let (m, s, w, e, reach) = full_batch attempts t l.counted (rw l.period h) in
    let (g, a, b, f) = send-config begun ended attempts t in
    (
      m,
      rw (fire_send begun ended attempts t l.at_phase e) (record {
        counted = Counted-same refl refl (rw s at (send-Counted begun ended attempts t l.counted));
        period = ap (λ (c : Config). c.send_period) g ∙ l.period;
        at_phase = refl;
        on_wire =
            ap tx_frames f
            ∙ tx_frames-append (send_batch attempts t).batch_frames t.frames
            ∙ omega (arith, w, l.on_wire);
        running = a ∙ l.running;
        no_err = b ∙ l.no_err;
      }),
      reach,
    )

pub stop_open :
    {sp : ℤ} {n r k j : ℕ} (w : Bool) (t : Transactor)
    → IsLive sp at_stop n r k j t
    → IsLive sp at_limit n r k j (step t (check_stop w))
unfolding dispatch
stop_open w t l = rw (step-dispatch at_stop (check_stop w) t l.at_phase) (
    simp l.running (record {
      counted = Counted-same refl refl l.counted;
      period = l.period;
      at_phase = refl;
      on_wire = l.on_wire;
      running = refl;
      no_err = l.no_err;
    }))

-- The transactor has returned, with `n` transactions counted and on the wire, and no error.
pub record IsFinished (n : ℕ) (t : Transactor) : Type 0 where
  pub at_return : t.phase ≡ returned
  pub count : t.tx_count ≡ pos n
  pub on_wire : tx_frames t.frames ≡ n
  pub no_err : t.stop_err ≡ none

-- A turn at which the batch begins and ends at two times and makes the given attempts.
abbrev pub Turn : Type 0
Turn = ℤ × ℤ × (ℕ → Attempt)

abbrev pub turn_of : Turn → Bool → List Event
turn_of (begun, ended, attempts) w = turn (send_tick begun ended attempts) w

abbrev pub turns : List Turn → List Event
turns [] = []
turns (x ∷ xs) = turn_of x true ++ turns xs

-- Every transaction of the turn is written before the send period is over.
abbrev pub IsTimely : ℤ → Turn → Type 0
IsTimely send_period x = (j : ℕ) → IsInTime (seconds send_period) (x.2 j)

pub full_turn :
    {sp : ℤ} {n r k : ℕ} (x : Turn) (w : Bool) (t : Transactor)
    → IsLive sp at_limit n r k k t
    → k < n
    → IsTimely sp x
    → (m : ℕ) × IsLive sp at_limit n r (k + m) (k + m) (run t (turn_of x w))
      × ((m ≡ r) ⊎ (k + m ≡ n))
unfolding run
full_turn (begun, ended, attempts) w t l h timely =
    let (m, v, reach) =
      fire_full begun ended attempts (step t check_limit) (check_open t l h) timely in
    (m, stop_open w _ v, reach)

-- A turn at the limit ends the loop: its batch has nothing to send.
check_met :
    {sp : ℤ} {n r : ℕ} (t : Transactor)
    → IsLive sp at_limit n r n n t
    → step t check_limit ≡ record t { stop = true; phase = at_select }
unfolding dispatch
check_met {n = n} t l =
    step-dispatch at_limit check_limit t l.at_phase
    ∙ ap (λ b. record (if b then set_stop none t else t) { phase = at_select })
        (limit_met n t l.counted.has_limit.limit l.counted.count l.counted.has_limit.limit_pos)

last_stop :
    (n : ℕ) (w : Bool) (t : Transactor)
    → t.phase ≡ at_stop
    → t.stop ≡ true
    → t.tx_count ≡ pos n
    → tx_frames t.frames ≡ n
    → t.stop_err ≡ none
    → IsFinished n (step t (check_stop w))
unfolding dispatch close_conn
last_stop n true t h s c f e =
    rw (step-dispatch at_stop (check_stop true) t h)
      (simp s (record { at_return = refl; count = c; on_wire = f; no_err = e }))
last_stop n false t h s c f e =
    rw (step-dispatch at_stop (check_stop false) t h)
      (simp s (record { at_return = refl; count = c; on_wire = f; no_err = e }))

pub last_turn :
    {sp : ℤ} {n r : ℕ} (x : Turn) (w : Bool) (t : Transactor)
    → IsLive sp at_limit n r n n t
    → IsTimely sp x
    → IsFinished n (run t (turn_of x w))
unfolding run
last_turn {sp} {n} {r} (begun, ended, attempts) w t l timely =
    let u : Transactor = record t { stop = true; phase = at_select } in
    let c : Counted n r n u = Counted-same refl refl l.counted in
    let (m, s, wire, e, reach) = full_batch attempts u c (rw l.period timely) in
    let (g, a, b, f) = send-config begun ended attempts u in
    let d = rw s at (send-Counted begun ended attempts u c) in
    let none_left : m ≡ 0 = omega (arith, d.within) in
    rw (check_met t l, fire_send begun ended attempts u refl e)
      (last_stop n w _ refl (a) (d.count ∙ ap pos (omega (arith, none_left)))
        (ap tx_frames f
          ∙ tx_frames-append (send_batch attempts u).batch_frames u.frames
          ∙ omega (arith, wire, none_left, l.on_wire))
        (b ∙ l.no_err))
