-- ===== src/Coordinator/Completion.antt =====
-- When the testing phase ends well (`receiveTestingUpdates` of pkg/loadtest/coordinator.go).
use perpx_load_test.Base.{
  ℕ, suc, ◌+◌, ◌≤◌, ◌<◌, ◌≡◌, refl, sym, ap, ◌∙◌, ◌⊎◌, inl, inr, Bool, true, false, not, ◌&&◌,
  String, str_eq, none, List, [], ◌∷◌, arith, is_some, Bool-cases, lookup, All,
}
use perpx_load_test.Base.Int.{ℤ, pos, leb_ℤ}
use perpx_load_test.Protocol.{
  WorkerState, WorkerMsg, connected, accepted, rejected, testing, failed, completed, other_state,
}
use perpx_load_test.Coordinator.{Coordinator, Progress, going, done}
use perpx_load_test.Coordinator.Testing.{
  measured, write_stats, log_testing_progress, TestEvent, update, leaving, progress_tick, stop_test,
  server_gone, Testing, track_message, after_count, complete_one, by_state, test_step, test_on,
  test_over, testing_begun, receive_testing_updates,
}
use perpx_load_test.Coordinator.Updates.{is_completed, completed_by, completions}

abbrev pub is_report : WorkerState → Bool
is_report testing = true
is_report completed = true
is_report _ = false

-- An event of a test in which nothing goes wrong: a report of a registered worker, or a tick.
abbrev pub is_regular : List (String × ℕ) → TestEvent → Bool
is_regular ws (update msg now) = is_some (lookup msg.id ws) && is_report msg.state
is_regular ws (progress_tick now) = true
is_regular ws _ = false

abbrev Unchanged : List (String × ℕ) → ℕ → Coordinator → Type 0
Unchanged ws x c = (c.workers ≡ ws) × (c.coord_cfg.expect_workers ≡ pos x)

-- The loop has returned nil, or it goes on with `n` workers of `x` completed.
abbrev IsOnTrack : List (String × ℕ) → ℕ → ℕ → Testing × Progress → Type 0
IsOnTrack ws x n r =
    (r.1 ≡ done none)
    ⊎ ((r.1 ≡ going) × (r.0.completed_count ≡ n) × (n < x) × Unchanged ws x r.0.coord)

write_stats-Unchanged :
    (ws : List (String × ℕ)) (x n : ℕ) (txs bytes elapsed : ℤ) (c : Coordinator)
    → Unchanged ws x c
    → Unchanged ws x (write_stats n txs bytes elapsed c)
unfolding write_stats
write_stats-Unchanged ws x n txs bytes elapsed c v =
    elim (Bool-cases
      (leb_ℤ c.coord_cfg.expect_workers (pos n) && not (str_eq c.cfg.stats_output_file ""))) [
        | inl e ↦ rw e v
        | inr e ↦ rw e v
      ]

log-Unchanged :
    (ws : List (String × ℕ)) (x : ℕ) (now : ℤ) (n : ℕ) (c : Coordinator)
    → Unchanged ws x c
    → Unchanged ws x (log_testing_progress now n c)
unfolding log_testing_progress measured
log-Unchanged ws x now n c v = write_stats-Unchanged ws x n _ _ _ (measured now n c) v

after_count-IsOnTrack :
    (ws : List (String × ℕ)) (x n : ℕ) (all : Bool) (now : ℤ) (t : Testing)
    → t.completed_count ≡ suc n
    → n < x
    → leb_ℤ (pos x) (pos (suc n)) ≡ all
    → Unchanged ws x t.coord
    → IsOnTrack ws x (n + 1) (after_count all now t)
unfolding after_count
after_count-IsOnTrack ws x n true now t q h e v = inl refl
after_count-IsOnTrack ws x n false now t q h e v =
    let room : n + 1 < x = ground arith in inr (refl, q ∙ omega arith, room, v)

complete_one-IsOnTrack :
    (ws : List (String × ℕ)) (x n : ℕ) (now : ℤ) (t : Testing)
    → t.completed_count ≡ n
    → n < x
    → Unchanged ws x t.coord
    → IsOnTrack ws x (n + 1) (complete_one now t)
unfolding complete_one
complete_one-IsOnTrack ws x n now t q h v =
    after_count-IsOnTrack ws x n
      (leb_ℤ t.coord.coord_cfg.expect_workers (pos (suc t.completed_count))) now
      (record t { completed_count = suc t.completed_count }) (ap suc q) h
      (ap (λ k. leb_ℤ (pos x) (pos (suc k))) (sym q)
        ∙ ap (λ z. leb_ℤ z (pos (suc t.completed_count))) (sym v.1))
      v

by_state-IsOnTrack :
    (ws : List (String × ℕ)) (x n : ℕ) (s : WorkerState) (msg : WorkerMsg) (now : ℤ) (t : Testing)
    → is_report s ≡ true
    → t.completed_count ≡ n
    → n < x
    → Unchanged ws x t.coord
    → IsOnTrack ws x (n + is_completed s) (by_state s msg now t)
unfolding by_state
by_state-IsOnTrack ws x n testing msg now t r q h v = inr (refl, q ∙ omega arith, omega arith, v)
by_state-IsOnTrack ws x n completed msg now t r q h v = complete_one-IsOnTrack ws x n now t q h v
by_state-IsOnTrack ws x n failed msg now t r q h v = cc
by_state-IsOnTrack ws x n connected msg now t r q h v = cc
by_state-IsOnTrack ws x n accepted msg now t r q h v = cc
by_state-IsOnTrack ws x n rejected msg now t r q h v = cc
by_state-IsOnTrack ws x n (other_state s) msg now t r q h v = cc

both : (a b : Bool) → a && b ≡ true → (a ≡ true) × (b ≡ true)
both true b h = (refl, h)
both false b h = cc

test_step-IsOnTrack :
    (ws : List (String × ℕ)) (x n : ℕ) (e : TestEvent) (t : Testing)
    → is_regular ws e ≡ true
    → t.completed_count ≡ n
    → n < x
    → Unchanged ws x t.coord
    → IsOnTrack ws x (n + completed_by e) (test_step t e)
unfolding test_step track_message
test_step-IsOnTrack ws x n (update msg now) t r q h v =
    let (known, report) = both (is_some (lookup msg.id ws)) (is_report msg.state) r in
    let here = ap (λ m. is_some (lookup msg.id m)) v.0 ∙ known in
    rw here (
      by_state-IsOnTrack ws x n msg.state msg now (record t { coord = track_message msg t.coord })
        report q h v)
test_step-IsOnTrack ws x n (progress_tick now) t r q h v =
    inr (refl, q ∙ omega arith, omega arith, log-Unchanged ws x now t.completed_count t.coord v)
test_step-IsOnTrack ws x n (leaving id e) t r q h v = cc
test_step-IsOnTrack ws x n stop_test t r q h v = cc
test_step-IsOnTrack ws x n server_gone t r q h v = cc

test_on-ends :
    (ws : List (String × ℕ)) (x n : ℕ) (es : List TestEvent) (r : Testing × Progress)
    → All (λ e. is_regular ws e ≡ true) es
    → IsOnTrack ws x n r
    → x ≤ n + completions es
    → (test_on r es).1 ≡ done none
unfolding test_on
test_on-ends ws x n es (t, done e) a (inl d) h = d
test_on-ends ws x n es (t, done e) a (inr v) h = let d = v.0 in cc
test_on-ends ws x n es (t, going) a (inl d) h = cc
test_on-ends ws x n [] (t, going) a (inr (d, q, lt, v)) h = absurd (omega arith)
test_on-ends ws x n (e ∷ es) (t, going) a (inr (d, q, lt, v)) h =
    test_on-ends ws x (n + completed_by e) es (test_step t e) a.1
      (test_step-IsOnTrack ws x n e t a.0 q lt v) (omega arith)

over_done : (r : Testing × Progress) → r.1 ≡ done none → (test_over r).1 ≡ done none
unfolding test_over
over_done (t, going) h = cc
over_done (t, done e) h = h

-- Where some positive number of workers is expected and the events are ticks and updates of
-- registered workers in the states `testing` and `completed`, with at least as many of the second as
-- workers are expected, the testing phase ends without an error.
pub regular_test_ends :
    (now : ℤ) (c : Coordinator) (es : List TestEvent) (x : ℕ)
    → c.coord_cfg.expect_workers ≡ pos x
    → 0 < x
    → All (λ e. is_regular c.workers e ≡ true) es
    → x ≤ completions es
    → (receive_testing_updates now c es).1 ≡ done none
unfolding receive_testing_updates testing_begun
regular_test_ends now c es x q z a h = over_done (test_on (testing_begun now c, going) es) (
    test_on-ends c.workers x 0 es (testing_begun now c, going) a (inr (refl, refl, z, (refl, q)))
      (omega arith))
