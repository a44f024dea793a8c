-- ===== src/Transactor/Limit.antt =====
-- The limit on the number of transactions (`Count`, pkg/loadtest/transactor.go).
use perpx_load_test.Base.{
  ℕ, ◌+◌, ◌-◌, ◌≤◌, ◌<◌, ◌≡◌, refl, ap, ◌∙◌, ◌⊎◌, inl, inr, true, false, Option, none, some, List,
  [], ◌∷◌, ◌++◌, arith, Bool-cases, ltb,
}
use perpx_load_test.Base.Int.{ℤ, pos, two63, pos_part, add_int64, add_int64_pos, sub_int64_pos}
use perpx_load_test.Config.{Config}
use perpx_load_test.Transactor.{
  StopError, Phase, at_limit, at_select, at_stop, Transactor, Attempt, empty_batch, seconds,
  to_send, send_batch, stop_on, send_transactions, report_to, Tick, send_tick, progress_tick,
  ping_tick, time_limit, handle_tick, limit_reached, Event, check_limit, fire, check_stop, cancel,
  dispatch, step, run, new_transactor,
}
use perpx_load_test.Transactor.Batches.{batch_loop-Adds}

-- A limit of `n` transactions at `r` per period, whose sum is an `int`.
pub record HasLimit (n r : ℕ) (c : Config) : Type 0 where
  pub limit : c.count ≡ pos n
  pub rate : c.rate ≡ pos r
  pub limit_pos : 0 < n
  pub fits : r + n < two63

-- The transactor has counted `k` transactions.
pub record Counted (n r k : ℕ) (t : Transactor) : Type 0 where
  pub has_limit : HasLimit n r t.config
  pub count : t.tx_count ≡ pos k
  pub within : k ≤ n

-- A batch may send what is left of the limit, up to the rate.
pub to_send-min :
    {n r k : ℕ} (t : Transactor)
    → Counted n r k t
    → (m : ℕ) × (to_send t ≡ pos m) × (k + m ≤ n) × ((m ≡ r) ⊎ (k + m ≡ n)) × (m ≤ r)
unfolding to_send
to_send-min {n} {r} {k} t c = elim (Bool-cases (ltb n (k + r))) [
  | inl h ↦ (
    n - k,
    rw (c.has_limit.limit, c.has_limit.rate, c.count, sum, positive, h)
        (sub_int64_pos n k c.within (omega arith)),
    omega arith,
    inr (omega arith),
    ground arith,
  )
  | inr h ↦ (
    r,
    rw (c.has_limit.limit, c.has_limit.rate, c.count, sum, positive, h),
    ground arith,
    inl refl,
    omega arith,
  )
]
  where
    sum : add_int64 (pos k) (pos r) ≡ pos (k + r)
    sum = add_int64_pos k r (omega (arith, c.has_limit.fits, c.within))

    positive : ltb 0 n ≡ true
    positive = ground (arith, c.has_limit.limit_pos)

-- What `sendTransactions` leaves alone.
pub send-config :
    (begun ended : ℤ) (attempts : ℕ → Attempt) (t : Transactor)
    → ((send_transactions begun ended attempts t).0.config ≡ t.config)
      × ((send_transactions begun ended attempts t).0.stop ≡ t.stop)
      × ((send_transactions begun ended attempts t).0.stop_err ≡ t.stop_err)
      × ((send_transactions begun ended attempts t).0.frames
          ≡ (send_batch attempts t).batch_frames ++ t.frames)
unfolding send_transactions
send-config begun ended attempts t = ground arith

sent_bound :
    {n r k : ℕ} (attempts : ℕ → Attempt) (t : Transactor)
    → Counted n r k t
    → k + (send_batch attempts t).sent ≤ n
unfolding send_batch
sent_bound attempts t c =
    let (m, e, h, _, _) = to_send-min t c in
    omega (
      arith,
      ap pos_part e,
      (batch_loop-Adds (pos_part (to_send t)) attempts (seconds t.config.send_period)
          empty_batch).allowed,
    )

send-count :
    (begun ended : ℤ) (attempts : ℕ → Attempt) (t : Transactor)
    → (send_transactions begun ended attempts t).0.tx_count
      ≡ add_int64 t.tx_count (pos (send_batch attempts t).sent)
unfolding send_transactions
send-count begun ended attempts t = ground arith

pub send-Counted :
    {n r k : ℕ} (begun ended : ℤ) (attempts : ℕ → Attempt) (t : Transactor)
    → Counted n r k t
    → Counted n r (k + (send_batch attempts t).sent) (send_transactions begun ended attempts t).0
send-Counted {n} {r} {k} begun ended attempts t c = record {
  has_limit = rw (send-config begun ended attempts t).0 c.has_limit;
  count =
      send-count begun ended attempts t
      ∙ ap (λ z. add_int64 z (pos (send_batch attempts t).sent)) c.count
      ∙ add_int64_pos k (send_batch attempts t).sent
          (omega (arith, sent_bound attempts t c, c.has_limit.fits));
  within = sent_bound attempts t c;
}

-- Some number of transactions within the limit is counted.
abbrev pub IsWithin : ℕ → ℕ → Transactor → Type 0
IsWithin n r t = (k : ℕ) × Counted n r k t

-- Such a fact rests on the configuration and the count alone.
pub Counted-same :
    {n r k : ℕ} {t u : Transactor}
    → u.config ≡ t.config
    → u.tx_count ≡ t.tx_count
    → Counted n r k t
    → Counted n r k u
Counted-same p q c = record { has_limit = rw p c.has_limit; count = q ∙ c.count; within = c.within }

stop_on-Counted :
    {n r k : ℕ} (e : Option StopError) (t : Transactor)
    → Counted n r k t
    → Counted n r k (stop_on e t)
unfolding stop_on
stop_on-Counted none t c = c
stop_on-Counted (some e) t c = Counted-same refl refl c

report_to-Counted :
    {n r k : ℕ} (o : Option ℕ) (t : Transactor) → Counted n r k t → Counted n r k (report_to o t)
unfolding report_to
report_to-Counted none t c = c
report_to-Counted (some id) t c = Counted-same refl refl c

handle_tick-IsWithin :
    {n r : ℕ} (tick : Tick) (t : Transactor) → IsWithin n r t → IsWithin n r (handle_tick tick t)
unfolding handle_tick
handle_tick-IsWithin (send_tick begun ended attempts) t (k, c) =
    (k + (send_batch attempts t).sent, stop_on-Counted _ _ (send-Counted begun ended attempts t c))
handle_tick-IsWithin progress_tick t (k, c) = (k, report_to-Counted t.progress_callback t c)
handle_tick-IsWithin (ping_tick none) t (k, c) = (k, Counted-same refl refl c)
handle_tick-IsWithin (ping_tick (some e)) t (k, c) = (k, Counted-same refl refl c)
handle_tick-IsWithin time_limit t (k, c) = (k, Counted-same refl refl c)

dispatch-IsWithin :
    {n r : ℕ} (p : Phase) (e : Event) (t : Transactor)
    → IsWithin n r t
    → IsWithin n r (dispatch p e t)
unfolding dispatch
dispatch-IsWithin at_limit check_limit t (k, c) = elim (Bool-cases (limit_reached t)) [
  | inl h ↦ rw h (k, Counted-same refl refl c)
  | inr h ↦ rw h (k, Counted-same refl refl c)
]
dispatch-IsWithin at_select (fire tick) t w =
    let (k, c) = handle_tick-IsWithin tick t w in (k, Counted-same refl refl c)
dispatch-IsWithin at_stop (check_stop true) t (k, c) = elim (Bool-cases t.stop) [
  | inl h ↦ rw h (k, Counted-same refl refl c)
  | inr h ↦ rw h (k, Counted-same refl refl c)
]
dispatch-IsWithin at_stop (check_stop false) t (k, c) = elim (Bool-cases t.stop) [
  | inl h ↦ rw h (k, Counted-same refl refl c)
  | inr h ↦ rw h (k, Counted-same refl refl c)
]
dispatch-IsWithin p cancel t (k, c) = (k, Counted-same refl refl c)
dispatch-IsWithin _ _ t w = w

pub run-IsWithin :
    {n r : ℕ} (t : Transactor) (es : List Event) → IsWithin n r t → IsWithin n r (run t es)
unfolding run step
run-IsWithin t [] w = w
run-IsWithin t (e ∷ es) w = run-IsWithin (dispatch t.phase e t) es (dispatch-IsWithin t.phase e t w)

-- A transactor with a positive `Count` that, with its rate, fits an `int` never counts more
-- transactions than `Count`, whatever its ticks, the outcomes of its writes and the cancellations.
pub count_limited :
    (n r : ℕ) (c : Config) (es : List Event)
    → HasLimit n r c
    → (k : ℕ) × ((run (new_transactor c) es).tx_count ≡ pos k) × (k ≤ n)
unfolding new_transactor
count_limited n r c es l =
    let (k, w) =
      run-IsWithin (new_transactor c) es
        (0, record { has_limit = l; count = refl; within = omega arith }) in
    (k, w.count, w.within)
