-- ===== src/Coordinator/Taken.antt =====
-- Which counts the coordinator keeps while it receives updates (`receiveTestingUpdates` of
-- pkg/loadtest/coordinator.go).
use perpx_load_test.Base.{
  ℕ, suc, ◌≡◌, refl, sym, ap, subst, ◌∙◌, Bool, true, false, not, ◌&&◌, String, str_eq, Option,
  none, some, List, [], ◌∷◌, if◌then◌else◌, is_some, lookup, insert, delete, lookup-insert,
}
use perpx_load_test.Base.Int.{ℤ, pos, ltb_ℤ, leb_ℤ}
use perpx_load_test.Protocol.{
  Failure, WorkerState, WorkerMsg, connected, accepted, rejected, testing, failed, completed,
  other_state,
}
use perpx_load_test.Coordinator.{Coordinator, going, unregister}
use perpx_load_test.Coordinator.Registry.{IsDistinct, insert-IsDistinct}
use perpx_load_test.Coordinator.Testing.{
  TestEvent, update, leaving, progress_tick, stop_test, server_gone, Testing, track_message,
  after_count, complete_one, by_state, test_step, log_testing_progress, measured, write_stats,
}

-- The workers that are registered after an event.
abbrev pub known_after : TestEvent → List (String × ℕ) → List (String × ℕ)
known_after (leaving id e) known = delete id known
known_after _ known = known

-- The last positive count that a worker has sent while it was registered, by an event.
abbrev pub told_by : (WorkerMsg → ℤ) → String → List (String × ℕ) → TestEvent → Option ℤ → Option ℤ
told_by count id known (update msg now) v =
    if is_some (lookup msg.id known)
    then if ltb_ℤ (pos 0) (count msg) then if str_eq msg.id id then some (count msg) else v else v
    else v
told_by count id known _ v = v

-- And by some events, where it was `v` before.
abbrev pub last_told :
    (WorkerMsg → ℤ) → String → List (String × ℕ) → List TestEvent → Option ℤ → Option ℤ
last_told count id known [] v = v
last_told count id known (e ∷ es) v =
    last_told count id (known_after e known) es (told_by count id known e v)

-- The maps of the workers and of their counts are the same.
record IsAlike (c d : Coordinator) : Type 0 where
  workers : d.workers ≡ c.workers
  txs : d.total_txs_per_worker ≡ c.total_txs_per_worker
  bytes : d.total_bytes_per_worker ≡ c.total_bytes_per_worker

IsAlike-refl : (c : Coordinator) → IsAlike c c
IsAlike-refl c = record { workers = refl; txs = refl; bytes = refl }

if-IsAlike :
    (b : Bool) (c x y : Coordinator) → IsAlike c x → IsAlike c y → IsAlike c (if b then x else y)
if-IsAlike true c x y v w = v
if-IsAlike false c x y v w = w

log_testing_progress-IsAlike :
    (now : ℤ) (n : ℕ) (c : Coordinator) → IsAlike c (log_testing_progress now n c)
unfolding log_testing_progress measured write_stats
log_testing_progress-IsAlike now n c =
    if-IsAlike (leb_ℤ c.coord_cfg.expect_workers (pos n) && not (str_eq c.cfg.stats_output_file ""))
      c _ _ (record { workers = refl; txs = refl; bytes = refl })
      (record { workers = refl; txs = refl; bytes = refl })

after_count-IsAlike :
    (b : Bool) (now : ℤ) (t : Testing) → IsAlike t.coord (after_count b now t).0.coord
unfolding after_count
after_count-IsAlike true now t = log_testing_progress-IsAlike now t.completed_count t.coord
after_count-IsAlike false now t = IsAlike-refl t.coord

by_state-IsAlike :
    (s : WorkerState) (msg : WorkerMsg) (now : ℤ) (t : Testing)
    → IsAlike t.coord (by_state s msg now t).0.coord
unfolding by_state complete_one
by_state-IsAlike testing msg now t = IsAlike-refl t.coord
by_state-IsAlike completed msg now t =
    let n = suc t.completed_count in
    after_count-IsAlike (leb_ℤ t.coord.coord_cfg.expect_workers (pos n)) now
      (record t { completed_count = n })
by_state-IsAlike failed msg now t = IsAlike-refl t.coord
by_state-IsAlike connected msg now t = IsAlike-refl t.coord
by_state-IsAlike accepted msg now t = IsAlike-refl t.coord
by_state-IsAlike rejected msg now t = IsAlike-refl t.coord
by_state-IsAlike (other_state s) msg now t = IsAlike-refl t.coord

-- What an event, or some, do to the maps.
pub record Follows (known : List (String × ℕ)) (c d : Coordinator) (es : List TestEvent)
    : Type 0 where
  pub txs :
      (id : String)
      → lookup id d.total_txs_per_worker
        ≡ last_told (λ m. m.tx_count) id known es (lookup id c.total_txs_per_worker)
  pub bytes :
      (id : String)
      → lookup id d.total_bytes_per_worker
        ≡ last_told (λ m. m.total_tx_bytes) id known es (lookup id c.total_bytes_per_worker)

-- Each worker is counted once.
pub record IsCounted (c : Coordinator) : Type 0 where
  pub once_txs : IsDistinct c.total_txs_per_worker
  pub once_bytes : IsDistinct c.total_bytes_per_worker

lookup-tracked :
    (b : Bool) (id k : String) (n : ℤ) (m : List (String × ℤ))
    → lookup id (if b then insert k n m else m)
      ≡ (if b then if str_eq k id then some n else lookup id m else lookup id m)
lookup-tracked true id k n m = lookup-insert k id n m
lookup-tracked false id k n m = refl

tracked-IsDistinct :
    (b : Bool) (k : String) (n : ℤ) (m : List (String × ℤ))
    → IsDistinct m
    → IsDistinct (if b then insert k n m else m)
tracked-IsDistinct true k n m h = insert-IsDistinct k n m h
tracked-IsDistinct false k n m h = h

-- What one event does: the workers, the counts, and that a worker stays counted once.
pub record IsTaken (c d : Coordinator) (e : TestEvent) : Type 0 where
  pub known : d.workers ≡ known_after e c.workers
  pub follows : Follows c.workers c d (e ∷ [])
  pub counted : IsCounted c → IsCounted d

alike-IsTaken :
    (c d : Coordinator) (e : TestEvent)
    → known_after e c.workers ≡ c.workers
    → ((count : WorkerMsg → ℤ) (id : String) (v : Option ℤ) → told_by count id c.workers e v ≡ v)
    → IsAlike c d
    → IsTaken c d e
alike-IsTaken c d e k t v = record {
  known = v.workers ∙ sym k;
  follows = record {
    txs = λ id. ap (lookup id) v.txs ∙ sym (t (λ m. m.tx_count) id _);
    bytes = λ id. ap (lookup id) v.bytes ∙ sym (t (λ m. m.total_tx_bytes) id _);
  };
  counted = λ h. record {
    once_txs = subst IsDistinct (sym v.txs) h.once_txs;
    once_bytes = subst IsDistinct (sym v.bytes) h.once_bytes;
  };
}

known_message :
    (msg : WorkerMsg) (now : ℤ) (c d : Coordinator)
    → is_some (lookup msg.id c.workers) ≡ true
    → IsAlike (track_message msg c) d
    → IsTaken c d (update msg now)
unfolding track_message
known_message msg now c d q v = record {
  known = v.workers;
  follows = record {
    txs = λ id.
        ap (lookup id) v.txs
        ∙ lookup-tracked (ltb_ℤ (pos 0) msg.tx_count) id msg.id msg.tx_count c.total_txs_per_worker
        ∙ rw q refl;
    bytes = λ id.
        ap (lookup id) v.bytes
        ∙ lookup-tracked (ltb_ℤ (pos 0) msg.total_tx_bytes) id msg.id msg.total_tx_bytes
            c.total_bytes_per_worker
        ∙ rw q refl;
  };
  counted = λ h. record {
    once_txs = subst IsDistinct (sym v.txs) (
        tracked-IsDistinct (ltb_ℤ (pos 0) msg.tx_count) msg.id msg.tx_count c.total_txs_per_worker
          h.once_txs);
    once_bytes = subst IsDistinct (sym v.bytes) (
        tracked-IsDistinct (ltb_ℤ (pos 0) msg.total_tx_bytes) msg.id msg.total_tx_bytes
          c.total_bytes_per_worker h.once_bytes);
  };
}

updated-IsTaken :
    (b : Bool) (msg : WorkerMsg) (now : ℤ) (t : Testing)
    → is_some (lookup msg.id t.coord.workers) ≡ b
    → IsTaken t.coord
        (if b
          then by_state msg.state msg now (record t { coord = track_message msg t.coord })
          else (t, going)).0.coord
        (update msg now)
updated-IsTaken true msg now t q =
    known_message msg now t.coord _ q
      (by_state-IsAlike msg.state msg now (record t { coord = track_message msg t.coord }))
updated-IsTaken false msg now t q =
    alike-IsTaken t.coord t.coord (update msg now) refl (λ count id v. rw q refl)
      (IsAlike-refl t.coord)

gone-IsTaken :
    (id : String) (f : Option Failure) (c : Coordinator)
    → IsTaken c (unregister id c) (leaving id f)
unfolding unregister
gone-IsTaken id f c = record {
  known = refl;
  follows = record { txs = λ k. refl; bytes = λ k. refl };
  counted = λ h. record { once_txs = h.once_txs; once_bytes = h.once_bytes };
}

pub test_step-IsTaken : (t : Testing) (e : TestEvent) → IsTaken t.coord (test_step t e).0.coord e
unfolding test_step
test_step-IsTaken t (update msg now) = updated-IsTaken _ msg now t refl
test_step-IsTaken t (leaving id none) = gone-IsTaken id none t.coord
test_step-IsTaken t (leaving id (some e)) = gone-IsTaken id (some e) t.coord
test_step-IsTaken t (progress_tick now) =
    alike-IsTaken t.coord _ (progress_tick now) refl (λ count id v. refl)
      (log_testing_progress-IsAlike now t.completed_count t.coord)
test_step-IsTaken t stop_test =
    alike-IsTaken t.coord t.coord stop_test refl (λ count id v. refl) (IsAlike-refl t.coord)
test_step-IsTaken t server_gone =
    alike-IsTaken t.coord t.coord server_gone refl (λ count id v. refl) (IsAlike-refl t.coord)
