-- ===== src/Seed/Verified.antt =====
-- The end of the seeding of pkg/seed/seed.go.
use perpx_load_test.Base.{
  ℕ, zero, suc, ◌+◌, ◌-◌, ◌*◌, ◌≤◌, ◌≡◌, ◌≢◌, ◌⊎◌, refl, sym, ap, subst, ◌∙◌, inl, inr, Bool, true,
  false, Option, none, some, List, [], ◌∷◌, arith, if◌then◌else◌, length, length-drop, take_all,
  All, bind_ok, Result, ok, err, ◌>>=◌,
}
use perpx_load_test.Base.Int.{pos, negsuc, ℤ-cases}
use perpx_load_test.Seed.{Config, SeedFailure, rest_url}
use perpx_load_test.Seed.Funding.{
  Tx, Get, Sdk, Node, Plan, is_low, low_ones, balances_url, bench_addrs, plan,
}
use perpx_load_test.Seed.Delivery.{
  Ending, finished, failed, no_fuel, Funded, cons_tx, batch_of, after_batch, prepare, deliver,
  next_sequence, sent_with, fund_with, fund_from, verified, verify_after, fund_needs, fund_planned,
  seed_planned, seed_accounts,
}
use perpx_load_test.Seed.Plan.{plan-IsMade}
use perpx_load_test.Seed.Batches.{recipients, fund_from-IsBatched}

module _ (sdk : Sdk) (node : Node) (c : Config) where
  -- An account that a query has shown not to be low, before or after.
  abbrev pub Covered : ℕ → List ℕ → Type 0
  Covered amount a =
      (is_low sdk node c amount (node.before (balances_url (rest_url c.rpc) a)) ≡ ok false)
      ⊎ (is_low sdk node c amount (node.after (balances_url (rest_url c.rpc) a)) ≡ ok false)

  choose_low :
      (amount : ℕ) (a : List ℕ) (rest more needs : List (List ℕ)) (low : Bool)
      → (low ≡ false → Covered amount a)
      → (if low then a ∷ more else more) ≡ needs
      → All (Covered amount) needs
      → (All (Covered amount) more → All (Covered amount) rest)
      → All (Covered amount) (a ∷ rest)
  choose_low amount a rest more needs true f h v k =
      let w : All (Covered amount) (a ∷ more) = subst (All (Covered amount)) (sym h) v in
      (w.0, k w.1)
  choose_low amount a rest more needs false f h v k =
      (f refl, k (subst (All (Covered amount)) (sym h) v))

  low_ones-All :
      (get : List ℕ → Get) (amount : ℕ) (l needs : List (List ℕ))
      → ((a : List ℕ)
          → is_low sdk node c amount (get (balances_url (rest_url c.rpc) a)) ≡ ok false
          → Covered amount a)
      → low_ones sdk node c get amount l ≡ ok needs
      → All (Covered amount) needs
      → All (Covered amount) l
  unfolding low_ones
  low_ones-All get amount [] needs f h v = tt
  low_ones-All get amount (a ∷ rest) needs f h v =
      let (low, (e, h₁)) = bind_ok _ _ _ h in
      let (more, (e₁, h₂)) = bind_ok _ _ _ h₁ in
      let h₃ : (if low then a ∷ more else more) ≡ needs = cc in
      choose_low amount a rest more needs low (λ q. f a (e ∙ ap ok q)) h₃ v
        (λ w. low_ones-All get amount rest more f e₁ w)

  finished_sent :
      (t : Tx) (later : Funded) (e : Option SeedFailure)
      → (sent_with sdk node c t later e).ending ≡ finished
      → (length (sent_with sdk node c t later e).txs ≡ suc (length later.txs))
        × (later.ending ≡ finished)
  unfolding sent_with cons_tx
  finished_sent t later none h = (refl, h)
  finished_sent t later (some e) h = cc

  finished_round :
      (round : ℕ) (later : Funded) (r : Result SeedFailure (Tx × List ℕ))
      → (fund_with sdk node c round later r).ending ≡ finished
      → (length (fund_with sdk node c round later r).txs ≡ suc (length later.txs))
        × (later.ending ≡ finished)
  unfolding fund_with
  finished_round round later (err e) h = cc
  finished_round round later (ok (t, bytes)) h =
      finished_sent t later (deliver sdk node c round (node.broadcast round bytes)) h

  -- A loop that has finished has passed all of the accounts.
  finished_all :
      (b : ℕ) (p : Plan) (fuel round seq : ℕ) (needs : List (List ℕ))
      → c.batch_size ≡ pos b
      → (fund_from sdk node c fuel round seq p needs).ending ≡ finished
      → length needs ≤ length (fund_from sdk node c fuel round seq p needs).txs * b
  unfolding fund_from
  finished_all b p fuel round seq [] q h = omega arith
  finished_all b p zero round seq (a ∷ rest) q h = cc
  finished_all b p (suc fuel) round seq (a ∷ rest) q h =
      let left = after_batch c.batch_size (a ∷ rest) in
      let later = fund_from sdk node c fuel (suc round) (next_sequence seq) p left in
      let (n, e) =
        finished_round round later
          (batch_of c.batch_size (a ∷ rest) >>= λ batch. prepare sdk node c p seq batch) h in
      let v = finished_all b p fuel (suc round) (next_sequence seq) left q e in
      let k : length left ≡ suc (length rest) - b =
        subst (λ z. length (after_batch z (a ∷ rest)) ≡ suc (length rest) - b) (sym q)
          (unfold after_batch in length-drop b (a ∷ rest)) in
      let step : suc (length later.txs) * b ≡ b + length later.txs * b = grind arith in
      subst (λ m. suc (length rest) ≤ m * b) (sym n) (omega (arith, step, v, k))

  not_negative :
      (n : ℕ) (p : Plan) (fuel round seq : ℕ) (a : List ℕ) (rest : List (List ℕ))
      → c.batch_size ≡ negsuc n
      → (fund_from sdk node c fuel round seq p (a ∷ rest)).ending ≢ finished
  unfolding fund_from fund_with batch_of
  not_negative n p zero round seq a rest q h = cc
  not_negative n p (suc fuel) round seq a rest q h =
      let later =
        fund_from sdk node c fuel (suc round) (next_sequence seq) p
          (after_batch c.batch_size (a ∷ rest)) in
      let g : (fund_with sdk node c round later
            (batch_of (negsuc n) (a ∷ rest) >>= λ batch. prepare sdk node c p seq batch)).ending
          ≡ finished =
        subst
          (λ z.
            (fund_with sdk node c round later
              (batch_of z (a ∷ rest) >>= λ batch. prepare sdk node c p seq batch)).ending
            ≡ finished)
          q h in
      cc

  finished_paid :
      (p : Plan) (fuel round seq : ℕ) (needs : List (List ℕ))
      → (fund_from sdk node c fuel round seq p needs).ending ≡ finished
      → recipients (fund_from sdk node c fuel round seq p needs).txs ≡ needs
  finished_paid p fuel round seq [] h = unfold fund_from in refl
  finished_paid p fuel round seq (a ∷ rest) h = elim (ℤ-cases c.batch_size) [
    | inl (b, q) ↦
        (fund_from-IsBatched sdk node c p b fuel round seq (a ∷ rest) q).paid
        ∙ take_all _ (a ∷ rest) (finished_all b p fuel round seq (a ∷ rest) q h)
    | inr (n, q) ↦ absurd (not_negative n p fuel round seq a rest q h)
  ]

  -- What holds of a seeding that has ended well.
  pub record IsSeeded (p : Plan) : Type 0 where
    pub planned : plan sdk node c ≡ ok p
    pub paid : recipients (seed_accounts sdk node c).txs ≡ p.needs
    pub covered :
        (addrs : List (List ℕ)) × ((bench_addrs sdk node c c.workers ≡ ok addrs)
          × All (Covered p.coin.coin_amount) addrs)

  verified_none :
      (r : Result SeedFailure (List (List ℕ))) → verified sdk node c r ≡ finished → r ≡ ok []
  unfolding verified
  verified_none (err e) h = cc
  verified_none (ok []) h = refl
  verified_none (ok (a ∷ rest)) h = cc

  verified_finished :
      (p : Plan) (e : Ending)
      → verify_after sdk node c p e ≡ finished
      → (e ≡ finished) × All (Covered p.coin.coin_amount) p.needs
  unfolding verify_after
  verified_finished p finished h =
      let none_low = verified_none (low_ones sdk node c node.after p.coin.coin_amount p.needs) h in
      (refl, low_ones-All node.after p.coin.coin_amount p.needs [] (λ a. inr) none_low tt)
  verified_finished p (failed e) h = cc
  verified_finished p no_fuel h = cc

  fund_needs-finished :
      (p : Plan) (needs : List (List ℕ))
      → p.needs ≡ needs
      → (fund_needs sdk node c p needs).ending ≡ finished
      → (recipients (fund_needs sdk node c p needs).txs ≡ needs)
        × All (Covered p.coin.coin_amount) p.needs
  unfolding fund_needs
  fund_needs-finished p [] q h = (refl, rw q tt)
  fund_needs-finished p (a ∷ rest) q h =
      let (e, v) =
        verified_finished p
          (fund_from sdk node c (suc (length rest)) 0 p.account.1 p (a ∷ rest)).ending h in
      (finished_paid p (suc (length rest)) 0 p.account.1 (a ∷ rest) e, v)

  planned-Covered :
      (p : Plan)
      → plan sdk node c ≡ ok p
      → All (Covered p.coin.coin_amount) p.needs
      → (addrs : List (List ℕ)) × ((bench_addrs sdk node c c.workers ≡ ok addrs)
          × All (Covered p.coin.coin_amount) addrs)
  planned-Covered p h v =
      let w = plan-IsMade sdk node c p h in
      (
        w.addrs,
        (w.benches, low_ones-All node.before p.coin.coin_amount w.addrs p.needs (λ a. inl) w.low v),
      )

  seed_planned-finished :
      (r : Result SeedFailure Plan)
      → (seed_planned sdk node c r).ending ≡ finished
      → (p : Plan) × ((r ≡ ok p)
          × ((recipients (seed_planned sdk node c r).txs ≡ p.needs)
              × All (Covered p.coin.coin_amount) p.needs))
  unfolding seed_planned fund_planned
  seed_planned-finished (err e) h = cc
  seed_planned-finished (ok p) h = (p, (refl, fund_needs-finished p p.needs refl h))

  -- A seeding that ends well has had a plan; it has handed to the node the payments of the accounts that
  -- needed funds, of each of them once and in their order; and of every benchmark account a query of
  -- its balance, before the funding or after it, has shown that it is not low.
  pub seed_accounts-IsSeeded :
      (seed_accounts sdk node c).ending ≡ finished → (p : Plan) × IsSeeded p
  unfolding seed_accounts
  seed_accounts-IsSeeded h =
      let (p, (e, (paid, v))) = seed_planned-finished (plan sdk node c) h in
      (
        p,
        record {
          planned = e;
          paid = unfold seed_accounts in paid;
          covered = planned-Covered p e v;
        },
      )
