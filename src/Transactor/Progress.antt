-- ===== src/Transactor/Progress.antt =====
-- The send loop reaches its limit (`sendLoop`, pkg/loadtest/transactor.go).
use perpx_load_test.Base.{
  ℕ, ◌+◌, ◌*◌, ◌≤◌, ◌≡◌, refl, subst, ◌⊎◌, inl, inr, Bool, true, none, List, [], ◌∷◌, ◌++◌, arith,
  length, All, ltb→lt, Bool-cases, ltb,
}
use perpx_load_test.Base.Int.{ℤ, pos}
use perpx_load_test.Config.{Config}
use perpx_load_test.Transactor.{
  at_limit, returned, Transactor, send_tick, Event, check_limit, fire, check_stop, dispatch, step,
  run, new_transactor, wait,
}
use perpx_load_test.Transactor.Batches.{tx_frames}
use perpx_load_test.Transactor.Limit.{HasLimit}
use perpx_load_test.Transactor.Shutdown.{step-dispatch}
use perpx_load_test.Transactor.Turns.{
  IsLive, IsFinished, Turn, turn_of, turns, IsTimely, full_turn, last_turn,
}

pub run-append : (t : Transactor) (es fs : List Event) → run t (es ++ fs) ≡ run (run t es) fs
unfolding run
run-append t [] fs = refl
run-append t (e ∷ es) fs = run-append (step t e) es fs

over_turn :
    {n : ℕ} (x : Turn) (w : Bool) (t : Transactor) → IsFinished n t → run t (turn_of x w) ≡ t
unfolding run dispatch
over_turn (begun, ended, attempts) w t f =
    let a = step-dispatch returned check_limit t f.at_return in
    let b = step-dispatch returned (fire (send_tick begun ended attempts)) t f.at_return in
    let c = step-dispatch returned (check_stop w) t f.at_return in rw (a, b) c

over_turns :
    {n : ℕ} (l : List Turn) (t : Transactor) → IsFinished n t → IsFinished n (run t (turns l))
over_turns [] t f = unfold run in f
over_turns (x ∷ xs) t f =
    rw (run-append t (turn_of x true) (turns xs), over_turn x true t f) (over_turns xs t f)

live_turns :
    {sp : ℤ} {n r : ℕ} (l : List Turn) (k : ℕ) (t : Transactor)
    → IsLive sp at_limit n r k k t
    → All (IsTimely sp) l
    → n ≤ k + length l * r
    → IsFinished n (run t (turns l)) ⊎ IsLive sp at_limit n r n n (run t (turns l))
live_turns {sp} {n} {r} [] k t l timely h =
    let e : k ≡ n = omega (arith, l.counted.within) in
    unfold run in (inr (subst (λ j. IsLive sp at_limit n r j j t) e l))
live_turns {sp} {n} {r} (x ∷ xs) k t l timely h = elim (Bool-cases (ltb k n)) [
  | inl lt ↦
      let (m, v, reach) = full_turn x true t l (ltb→lt k n lt) timely.0 in
      rw (run-append t (turn_of x true) (turns xs))
        (live_turns xs (k + m) _ v timely.1 (room m reach))
  | inr ge ↦
      let e : k ≡ n = ground (arith, l.counted.within) in
      rw (run-append t (turn_of x true) (turns xs)) (
        inl (
          over_turns xs _
            (last_turn x true t (subst (λ j. IsLive sp at_limit n r j j t) e l) timely.0)))
]
  where
    room : (m : ℕ) → (m ≡ r) ⊎ (k + m ≡ n) → n ≤ (k + m) + length xs * r
    room m (inl e) = rw e (omega arith)
    room m (inr e) = omega arith

-- If every transaction of every turn is written before the send period is over, then after enough
-- turns to send `Count` transactions at the configured rate, and one turn more, the send loop has
-- returned, exactly `Count` transactions are counted and on the wire, and `Wait` returns nil.
pub timely_turns_finish :
    (n r : ℕ) (c : Config) (l : List Turn) (x : Turn) (w : Bool)
    → HasLimit n r c
    → All (IsTimely c.send_period) l
    → IsTimely c.send_period x
    → n ≤ length l * r
    → let t = run (new_transactor c) (turns l ++ turn_of x w) in
      (t.phase ≡ returned) × (t.tx_count ≡ pos n) × (tx_frames t.frames ≡ n) × (wait t ≡ none)
unfolding new_transactor wait
timely_turns_finish n r c l x w limit timely last h =
    let start : IsLive c.send_period at_limit n r 0 0 (new_transactor c) = record {
      counted = record { has_limit = limit; count = refl; within = omega arith };
      period = refl;
      at_phase = refl;
      on_wire = refl;
      running = refl;
      no_err = refl;
    } in
    rw (run-append (new_transactor c) (turns l) (turn_of x w)) (
      outcome (run (new_transactor c) (turns l))
        (live_turns l 0 (new_transactor c) start timely (omega arith)))
  where
    ends :
        (t : Transactor)
        → IsFinished n t
        → (t.phase ≡ returned)
          × (t.tx_count ≡ pos n)
          × (tx_frames t.frames ≡ n)
          × (t.stop_err ≡ none)
    ends t f = (f.at_return, f.count, f.on_wire, f.no_err)

    outcome :
        (t : Transactor)
        → IsFinished n t ⊎ IsLive c.send_period at_limit n r n n t
        → ((run t (turn_of x w)).phase ≡ returned)
          × ((run t (turn_of x w)).tx_count ≡ pos n)
          × (tx_frames (run t (turn_of x w)).frames ≡ n)
          × ((run t (turn_of x w)).stop_err ≡ none)
    outcome t (inl f) = rw (over_turn x w t f) (ends t f)
    outcome t (inr v) = ends _ (last_turn x w t v last)
