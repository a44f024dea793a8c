-- ===== src/Transactor/Batches.antt =====
-- What one batch sends and what it counts (`sendTransactions` of pkg/loadtest/transactor.go).
use perpx_load_test.Base.{
  ℕ, zero, suc, ◌+◌, ◌≤◌, ◌<◌, ◌≡◌, refl, ap, inl, inr, true, false, some, List, [], ◌∷◌, ◌++◌,
  arith, Bool-cases,
}
use perpx_load_test.Base.Int.{ℤ, pos, leb_ℤ, two63, add_int64, add_int64_pos}
use perpx_load_test.Transactor.{
  StopError, generate_error, write_error, Frame, tx, ping, close, Attempt, generate_failed,
  write_failed, written, Batch, batch_loop,
}

-- The transactions among some frames, and their bytes.
abbrev pub tx_frames : List Frame → ℕ
tx_frames [] = 0
tx_frames (tx len ∷ fs) = suc (tx_frames fs)
tx_frames (ping ∷ fs) = tx_frames fs
tx_frames (close ∷ fs) = tx_frames fs

abbrev pub frame_bytes : List Frame → ℕ
frame_bytes [] = 0
frame_bytes (tx len ∷ fs) = len + frame_bytes fs
frame_bytes (ping ∷ fs) = frame_bytes fs
frame_bytes (close ∷ fs) = frame_bytes fs

pub tx_frames-append : (fs gs : List Frame) → tx_frames (fs ++ gs) ≡ tx_frames fs + tx_frames gs
tx_frames-append [] gs = omega arith
tx_frames-append (tx len ∷ fs) gs = omega (arith, tx_frames-append fs gs)
tx_frames-append (ping ∷ fs) gs = tx_frames-append fs gs
tx_frames-append (close ∷ fs) gs = tx_frames-append fs gs

-- What the loop adds to a batch when `left` rounds are allowed.
pub record Adds (left : ℕ) (b r : Batch) : Type 0 where
  pub counted : b.sent ≤ r.sent
  pub allowed : r.sent ≤ b.sent + left
  pub on_wire : tx_frames b.batch_frames + r.sent ≤ tx_frames r.batch_frames + b.sent
  pub one_more : tx_frames r.batch_frames + b.sent ≤ suc (tx_frames b.batch_frames + r.sent)
  pub wire_allowed : tx_frames r.batch_frames ≤ tx_frames b.batch_frames + left

-- The batch after a transaction of `len` bytes was written.
abbrev pub wrote : Batch → ℕ → Batch
wrote b len = record b {
  sent_bytes = add_int64 b.sent_bytes (pos len);
  batch_frames = tx len ∷ b.batch_frames;
}

abbrev pub counted_one : Batch → ℕ → Batch
counted_one b len = record (wrote b len) { sent = suc b.sent }

-- The three ways in which a round goes on.
pub data Round (left : ℕ) (attempts : ℕ → Attempt) (period : ℤ) (b : Batch) : Batch → Type 0 where
  failed : (e : StopError) → Round left attempts period b (record b { batch_err = some e })
  late :
      (len : ℕ) (elapsed : ℤ)
      → attempts b.sent ≡ written len elapsed
      → leb_ℤ period elapsed ≡ true
      → Round left attempts period b (wrote b len)
  in_time :
      (len : ℕ) (elapsed : ℤ)
      → attempts b.sent ≡ written len elapsed
      → leb_ℤ period elapsed ≡ false
      → Round left attempts period b (batch_loop left attempts period (counted_one b len))

pub batch_loop-Round :
    (left : ℕ) (attempts : ℕ → Attempt) (period : ℤ) (b : Batch)
    → Round left attempts period b (batch_loop (suc left) attempts period b)
unfolding batch_loop
batch_loop-Round left attempts period b = by_attempt (attempts b.sent) refl
  where
    by_attempt :
        (a : Attempt)
        → attempts b.sent ≡ a
        → Round left attempts period b (batch_loop (suc left) attempts period b)
    by_attempt (generate_failed e) q = rw (q, batch_loop) (failed (generate_error e))
    by_attempt (write_failed e) q = rw (q, batch_loop) (failed (write_error e))
    by_attempt (written len elapsed) q = elim (Bool-cases (leb_ℤ period elapsed)) [
      | inl h ↦ rw (q, batch_loop) (rw (h, batch_loop) (late len elapsed q h))
      | inr h ↦ rw (q, batch_loop) (rw (h, batch_loop) (in_time len elapsed q h))
    ]

Round-Adds :
    {left : ℕ} {attempts : ℕ → Attempt} {period : ℤ} {b r : Batch}
    → Round left attempts period b r
    → ((c : Batch) → Adds left c (batch_loop left attempts period c))
    → Adds (suc left) b r
Round-Adds (failed e) rest = omega arith
Round-Adds (late len elapsed q h) rest = omega arith
Round-Adds {b = b} (in_time len elapsed q h) rest = omega (arith, rest (counted_one b len))

-- However the attempts turn out, a batch counts at most the transactions it was allowed, and
-- writes those that it counts and at most one more.
pub batch_loop-Adds :
    (left : ℕ) (attempts : ℕ → Attempt) (period : ℤ) (b : Batch)
    → Adds left b (batch_loop left attempts period b)
batch_loop-Adds zero attempts period b = unfold batch_loop in (omega arith)
batch_loop-Adds (suc left) attempts period b =
    Round-Adds (batch_loop-Round left attempts period b) (batch_loop-Adds left attempts period)

-- Bytes on the wire and bytes counted.
bytes_keep :
    (b : Batch) (len : ℕ)
    → b.sent_bytes ≡ pos (frame_bytes b.batch_frames)
    → len + frame_bytes b.batch_frames < two63
    → add_int64 b.sent_bytes (pos len) ≡ pos (len + frame_bytes b.batch_frames)
bytes_keep b len e h =
    rw (e, add_int64_pos (frame_bytes b.batch_frames) len (omega arith)) (ap pos (omega arith))

frame_bytes-grow :
    (left : ℕ) (attempts : ℕ → Attempt) (period : ℤ) (b : Batch)
    → frame_bytes b.batch_frames ≤ frame_bytes (batch_loop left attempts period b).batch_frames
frame_bytes-grow zero attempts period b = unfold batch_loop in (omega arith)
frame_bytes-grow (suc left) attempts period b =
    by_round (batch_loop-Round left attempts period b) (frame_bytes-grow left attempts period)
  where
    by_round :
        {r : Batch}
        → Round left attempts period b r
        → ((c : Batch)
            → frame_bytes c.batch_frames
              ≤ frame_bytes (batch_loop left attempts period c).batch_frames)
        → frame_bytes b.batch_frames ≤ frame_bytes r.batch_frames
    by_round (failed e) rest = omega arith
    by_round (late len elapsed q h) rest = omega arith
    by_round (in_time len elapsed q h) rest = omega (arith, rest (counted_one b len))

-- The bytes that a batch counts are those of the transactions on the wire, the last one included,
-- as long as they fit an `int64`.
pub batch_loop-bytes :
    (left : ℕ) (attempts : ℕ → Attempt) (period : ℤ) (b : Batch)
    → b.sent_bytes ≡ pos (frame_bytes b.batch_frames)
    → frame_bytes (batch_loop left attempts period b).batch_frames < two63
    → (batch_loop left attempts period b).sent_bytes
      ≡ pos (frame_bytes (batch_loop left attempts period b).batch_frames)
batch_loop-bytes zero attempts period b e h = unfold batch_loop in e
batch_loop-bytes (suc left) attempts period b e h =
    by_round (batch_loop-Round left attempts period b) (batch_loop-bytes left attempts period) h
  where
    by_round :
        {r : Batch}
        → Round left attempts period b r
        → ((c : Batch)
            → c.sent_bytes ≡ pos (frame_bytes c.batch_frames)
            → frame_bytes (batch_loop left attempts period c).batch_frames < two63
            → (batch_loop left attempts period c).sent_bytes
              ≡ pos (frame_bytes (batch_loop left attempts period c).batch_frames))
        → frame_bytes r.batch_frames < two63
        → r.sent_bytes ≡ pos (frame_bytes r.batch_frames)
    by_round (failed x) rest k = e
    by_round (late len elapsed q t) rest k = bytes_keep b len e k
    by_round (in_time len elapsed q t) rest k =
        rest (counted_one b len)
          (bytes_keep b len e
            (omega (arith, frame_bytes-grow left attempts period (counted_one b len))))
          k

-- The transaction is written, before the period is over or not.
abbrev pub IsInTime : ℤ → Attempt → Type 0
IsInTime period (generate_failed e) = ⊥
IsInTime period (write_failed e) = ⊥
IsInTime period (written len elapsed) = leb_ℤ period elapsed ≡ false

abbrev pub IsLate : ℤ → Attempt → Type 0
IsLate period (generate_failed e) = ⊥
IsLate period (write_failed e) = ⊥
IsLate period (written len elapsed) = leb_ℤ period elapsed ≡ true

batch_loop-late :
    (left : ℕ) (attempts : ℕ → Attempt) (period : ℤ) (b : Batch) (a : Attempt)
    → attempts b.sent ≡ a
    → IsLate period a
    → (len : ℕ) × (batch_loop (suc left) attempts period b ≡ wrote b len)
unfolding batch_loop
batch_loop-late left attempts period b (generate_failed e) q h = absurd h
batch_loop-late left attempts period b (write_failed e) q h = absurd h
batch_loop-late left attempts period b (written len elapsed) q h =
    (len, rw (q, batch_loop) (rw (h, batch_loop)))

batch_loop-in_time :
    (left : ℕ) (attempts : ℕ → Attempt) (period : ℤ) (b : Batch) (a : Attempt)
    → attempts b.sent ≡ a
    → IsInTime period a
    → (len : ℕ) × (batch_loop (suc left) attempts period b
        ≡ batch_loop left attempts period (counted_one b len))
unfolding batch_loop
batch_loop-in_time left attempts period b (generate_failed e) q h = absurd h
batch_loop-in_time left attempts period b (write_failed e) q h = absurd h
batch_loop-in_time left attempts period b (written len elapsed) q h =
    (len, rw (q, batch_loop) (rw (h, batch_loop)))

-- The batch counted `m` transactions more, and wrote `w` more, without an error of its own.
abbrev pub Gains : ℕ → ℕ → Batch → Batch → Type 0
Gains m w b r =
    (r.sent ≡ b.sent + m)
    × (tx_frames r.batch_frames ≡ tx_frames b.batch_frames + w)
    × (r.batch_err ≡ b.batch_err)

-- Where every transaction is written in time, the batch counts and writes all that it was allowed.
pub batch_loop-full :
    (left : ℕ) (attempts : ℕ → Attempt) (period : ℤ) (b : Batch)
    → ((j : ℕ) → IsInTime period (attempts j))
    → Gains left left b (batch_loop left attempts period b)
batch_loop-full zero attempts period b h = unfold batch_loop in (omega arith, omega arith, refl)
batch_loop-full (suc left) attempts period b h =
    let (len, e) = batch_loop-in_time left attempts period b _ refl (h b.sent) in
    let (p, q, r) = batch_loop-full left attempts period (counted_one b len) h in
    rw e (omega arith, omega arith, r)

-- Whenever the transaction after `k` timely ones outlasts the send period, `k` transactions are
-- counted and `k + 1` are on the wire: the `break` skips the count of the one just written.
pub batch_loop-undercounts :
    (k left : ℕ) (attempts : ℕ → Attempt) (period : ℤ) (b : Batch)
    → k < left
    → ((j : ℕ) → j < b.sent + k → IsInTime period (attempts j))
    → IsLate period (attempts (b.sent + k))
    → Gains k (suc k) b (batch_loop left attempts period b)
batch_loop-undercounts k zero attempts period b h early late_one = absurd (omega arith)
batch_loop-undercounts zero (suc left) attempts period b h early late_one =
    let first : b.sent + 0 ≡ b.sent = omega arith in
    let (len, e) = batch_loop-late left attempts period b _ refl (rw first at late_one) in
    rw e (omega arith, omega arith, refl)
batch_loop-undercounts (suc k) (suc left) attempts period b h early late_one =
    let (len, e) = batch_loop-in_time left attempts period b _ refl (early b.sent (omega arith)) in
    let next : b.sent + suc k ≡ suc b.sent + k = omega arith in
    let (p, q, r) =
      batch_loop-undercounts k left attempts period (counted_one b len) (omega arith)
        (λ j lt. early j (omega arith)) (rw next at late_one) in
    rw e (omega arith, omega arith, r)
