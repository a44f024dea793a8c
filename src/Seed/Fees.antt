-- ===== src/Seed/Fees.antt =====
-- The fees of pkg/seed/seed.go.
use perpx_load_test.Base.{
  ℕ, ◌+◌, ◌*◌, ◌%◌, ◌≤◌, ◌<◌, ◌≡◌, refl, ap, subst, ◌∙◌, Bool, true, false, List, [], ◌∷◌, arith,
  if◌then◌else◌, length, length-append, length-map, map, All, bind_ok, ok, err, ◌>>=◌,
}
use perpx_load_test.Base.Int.{pos, from_pattern, ◌+ℤ◌, wrap64, wrap64_id, two63, two64}
use perpx_load_test.Seed.{Config, bad_denom}
use perpx_load_test.Seed.Funding.{Coin, Tx, Sdk, Node, Plan, new_coin, scale, total_required, plan}
use perpx_load_test.Seed.Delivery.{gas_for, fee_for, seed_accounts}
use perpx_load_test.Seed.Plan.{plan-IsMade}
use perpx_load_test.Seed.Batches.{recipients, IsPayment, seed_accounts-IsBatched}

abbrev pub total_fees : List Tx → ℕ
total_fees [] = 0
total_fees (t ∷ ts) = t.fee.coin_amount + total_fees ts

module _ (sdk : Sdk) (node : Node) (c : Config) where
  coin_kept : (d : List ℕ) (n m : ℕ) → new_coin sdk node c d (pos n) ≡ ok m → m ≡ n
  unfolding new_coin
  coin_kept d n m h = kept (sdk.valid_denom d) h
    where
      kept : (b : Bool) → (if b then ok n else err bad_denom) ≡ ok m → m ≡ n
      kept true q = cc
      kept false q = cc

  fee_value :
      (n fee : ℕ)
      → n ≤ 92_233_720_368_547
      → fee_for sdk node c n ≡ ok fee
      → fee ≡ 2_500_000_000_000_000 * n
  unfolding fee_for scale gas_for
  fee_value n fee l h =
      let e : from_pattern (100_000 * n % two64) ≡ pos (100_000 * n) =
        unfold from_pattern in ground arith in
      let g : new_coin sdk node c c.denom (scale 25_000_000_000 (pos (100_000 * n))) ≡ ok fee =
        subst (λ z. new_coin sdk node c c.denom (scale 25_000_000_000 z) ≡ ok fee) e h in
      let v = coin_kept c.denom (25_000_000_000 * (100_000 * n)) fee g in omega (arith, v)

  total_value :
      (p : Plan) (b : ℕ) (ts : List Tx)
      → b ≤ 92_233_720_368_547
      → All (IsPayment sdk node c p b) ts
      → total_fees ts ≡ 2_500_000_000_000_000 * length (recipients ts)
  total_value p b [] l v = refl
  total_value p b (t ∷ ts) l (v, vs) =
      let f = fee_value (length t.messages) t.fee.coin_amount (omega (arith, l, v.few)) v.priced in
      let rest = total_value p b ts l vs in
      omega (
        arith,
        f,
        rest,
        length-append (map (λ m. m.recipient) t.messages) (recipients ts),
        length-map t.messages (λ m. m.recipient),
      )

  required_value :
      (coin : Coin) (w r : ℕ)
      → c.workers ≡ pos w
      → 10_000 * w < two63
      → total_required sdk node c coin ≡ ok r
      → r ≡ coin.coin_amount * w + 10_000 * w
  required_value coin w r q l h =
      let g : (new_coin sdk node c c.denom (wrap64 (scale 10_000 (pos w))) >>= λ fees.
      new_coin sdk node c c.denom (scale coin.coin_amount (pos w) +ℤ pos fees))
          ≡ ok r =
        subst
          (λ z.
            (new_coin sdk node c c.denom (wrap64 (scale 10_000 z)) >>= λ fees.
            new_coin sdk node c c.denom (scale coin.coin_amount z +ℤ pos fees))
            ≡ ok r)
          q (unfold total_required in h) in
      let (fees, (e, f)) = bind_ok _ _ _ g in
      let small : wrap64 (scale 10_000 (pos w)) ≡ pos (10_000 * w) =
        unfold scale in wrap64_id (pos (10_000 * w)) l in
      let n =
        coin_kept c.denom (10_000 * w) fees
          (subst (λ z. new_coin sdk node c c.denom z ≡ ok fees) small e) in
      let sum : scale coin.coin_amount (pos w) +ℤ pos fees ≡ pos (coin.coin_amount * w + fees) =
        unfold scale in unfold ◌+ℤ◌ in ground arith in
      let m =
        coin_kept c.denom (coin.coin_amount * w + fees) r
          (subst (λ z. new_coin sdk node c c.denom z ≡ ok r) sum f) in
      omega (arith, m, n)

  -- With numbers that stay in 64 bits: the balance that the seeding asks for holds 10000 for the fees
  -- of each worker, and the fees of the transactions that it then hands to the node are
  -- 2500000000000000 for each account that they pay.
  pub fees_underestimated :
      (p : Plan) (b w : ℕ)
      → plan sdk node c ≡ ok p
      → c.batch_size ≡ pos b
      → b ≤ 92_233_720_368_547
      → c.workers ≡ pos w
      → 10_000 * w < two63
      → (total_required sdk node c p.coin ≡ ok (p.coin.coin_amount * w + 10_000 * w))
        × (total_fees (seed_accounts sdk node c).txs
            ≡ 2_500_000_000_000_000 * length (recipients (seed_accounts sdk node c).txs))
  fees_underestimated p b w h k l q s =
      let made = plan-IsMade sdk node c p h in
      let r = required_value p.coin w made.required q s made.total in
      let batched = seed_accounts-IsBatched sdk node c p b h k in
      (made.total ∙ ap ok r, total_value p b (seed_accounts sdk node c).txs l batched.payments)
