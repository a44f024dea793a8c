-- ===== src/Transactor/Overrun.antt =====
-- The send loop does not reach its limit where writes are slow (pkg/loadtest/transactor.go).
use native.Mathlib.Nat.{zero-add}
use perpx_load_test.Base.{
  ℕ, suc, ◌+◌, ◌<◌, ◌≡◌, refl, ap, subst, ◌∙◌, true, false, none, List, [], ◌∷◌, arith, length, All,
}
use perpx_load_test.Base.Int.{ℤ, pos, pos_part}
use perpx_load_test.Config.{Config}
use perpx_load_test.Transactor.{
  at_limit, at_select, at_stop, Transactor, Attempt, empty_batch, seconds, to_send, send_batch,
  send_tick, fire, step, run, new_transactor,
}
use perpx_load_test.Transactor.Batches.{tx_frames, tx_frames-append, batch_loop-undercounts, IsLate}
use perpx_load_test.Transactor.Limit.{
  HasLimit, Counted, Counted-same, to_send-min, send-config, send-Counted,
}
use perpx_load_test.Transactor.Turns.{
  IsLive, check_open, fire_send, stop_open, Turn, turn_of, turns,
}
use perpx_load_test.Transactor.Progress.{run-append}

-- A turn whose first transaction outlasts the send period.
abbrev pub IsSlow : ℤ → Turn → Type 0
IsSlow send_period x = IsLate (seconds send_period) (x.2 0)

slow_batch :
    {n r : ℕ} (attempts : ℕ → Attempt) (t : Transactor)
    → Counted n r 0 t
    → 0 < r
    → IsLate (seconds t.config.send_period) (attempts 0)
    → ((send_batch attempts t).sent ≡ 0)
      × (tx_frames (send_batch attempts t).batch_frames ≡ 1)
      × ((send_batch attempts t).batch_err ≡ none)
unfolding send_batch
slow_batch attempts t c h slow =
    let (m, e, _, reach, _) = to_send-min t c in
    let some_left : 0 < m = omega (arith, c.has_limit.limit_pos) in
    let (p, q, x) =
      batch_loop-undercounts 0 (pos_part (to_send t)) attempts (seconds t.config.send_period)
        empty_batch (rw e some_left) (λ j lt. absurd (omega arith)) (rw zero-add slow) in
    (omega (arith, p), omega (arith, q), x)

fire_slow :
    {sp : ℤ} {n r j : ℕ} (begun ended : ℤ) (attempts : ℕ → Attempt) (t : Transactor)
    → IsLive sp at_select n r 0 j t
    → 0 < r
    → IsLate (seconds sp) (attempts 0)
    → IsLive sp at_stop n r 0 (suc j) (step t (fire (send_tick begun ended attempts)))
fire_slow {sp} {n} {r} {j} begun ended attempts t l h slow =
    let (s, w, e) = slow_batch attempts t l.counted h (rw l.period slow) in
    let (g, a, b, f) = send-config begun ended attempts t in
    rw (fire_send begun ended attempts t l.at_phase e) (record {
      counted = Counted-same refl refl (rw s at (send-Counted begun ended attempts t l.counted));
      period = ap (λ (c : Config). c.send_period) g ∙ l.period;
      at_phase = refl;
      on_wire =
          ap tx_frames f
          ∙ tx_frames-append (send_batch attempts t).batch_frames t.frames
          ∙ omega (arith, w, l.on_wire);
      running = a ∙ l.running;
      no_err = b ∙ l.no_err;
    })

slow_turn :
    {sp : ℤ} {n r j : ℕ} (x : Turn) (t : Transactor)
    → IsLive sp at_limit n r 0 j t
    → 0 < r
    → IsSlow sp x
    → IsLive sp at_limit n r 0 (suc j) (run t (turn_of x true))
unfolding run
slow_turn (begun, ended, attempts) t v h slow =
    stop_open true _
      (fire_slow begun ended attempts _ (check_open t v v.counted.has_limit.limit_pos) h slow)

slow_turns :
    {sp : ℤ} {n r : ℕ} (l : List Turn) (j : ℕ) (t : Transactor)
    → IsLive sp at_limit n r 0 j t
    → 0 < r
    → All (IsSlow sp) l
    → IsLive sp at_limit n r 0 (j + length l) (run t (turns l))
slow_turns {sp} {n} {r} [] j t v h slow =
    unfold run in (subst (λ i. IsLive sp at_limit n r 0 i t) (omega arith) v)
slow_turns {sp} {n} {r} (x ∷ xs) j t v h slow = rw (run-append t (turn_of x true) (turns xs)) (
    subst (λ i. IsLive sp at_limit n r 0 i (run (run t (turn_of x true)) (turns xs))) (omega arith)
      (slow_turns xs (suc j) _ (slow_turn x t v h slow.0) h slow.1))

-- In every run of turns whose first transaction outlasts the send period, a transactor with a limit
-- counts no transaction at all, writes one to the wire each turn, and goes on: after more turns
-- than `Count` it has sent more than `Count` transactions.
pub slow_turns_exceed :
    (n r : ℕ) (c : Config) (l : List Turn)
    → HasLimit n r c
    → 0 < r
    → All (IsSlow c.send_period) l
    → let t = run (new_transactor c) (turns l) in
      (t.tx_count ≡ pos 0)
      × (tx_frames t.frames ≡ length l)
      × (t.phase ≡ at_limit)
      × (t.stop ≡ false)
unfolding new_transactor
slow_turns_exceed n r c l limit h slow =
    let v =
      slow_turns l 0 (new_transactor c)
        (record {
          counted = record { has_limit = limit; count = refl; within = omega arith };
          period = refl;
          at_phase = refl;
          on_wire = refl;
          running = refl;
          no_err = refl;
        })
        h slow in
    (v.counted.count, v.on_wire ∙ zero-add (length l), v.at_phase, v.running)
