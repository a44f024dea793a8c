-- ===== src/Seed/Ends.antt =====
-- The loop over the batches of pkg/seed/seed.go ends.
use perpx_load_test.Base.{
  ℕ, zero, suc, ◌-◌, ◌≤◌, ◌≡◌, ◌≢◌, refl, sym, ap, subst, inl, inr, Bool, true, false, not, Option,
  none, some, List, [], ◌∷◌, arith, if◌then◌else◌, length, length-drop, Result, ok, err, ◌>>=◌,
}
use perpx_load_test.Base.Int.{ℤ, pos, negsuc, ℤ-cases, eqb_ℤ}
use perpx_load_test.Seed.{Config, SeedFailure, refused, divided_by_zero}
use perpx_load_test.Seed.Funding.{Tx, Sdk, Node, Plan, low_ones, plan}
use perpx_load_test.Seed.Delivery.{
  Ending, finished, failed, no_fuel, Funded, cons_tx, batch_of, after_batch, prepare, answered,
  deliver, next_sequence, sent_with, fund_with, fund_from, verified, verify_after, fund_needs,
  fund_planned, seed_planned, seed_accounts,
}

both_fail :
    (first second : Bool) (e d : SeedFailure) (rest : Option SeedFailure)
    → second ≡ true
    → (if first then some e else if second then some d else rest) ≢ none
both_fail true second e d rest q h = cc
both_fail false true e d rest q h = cc
both_fail false false e d rest q h = absurd (ground arith)

module _ (sdk : Sdk) (node : Node) (c : Config) where
  zero_fails :
      (round : ℕ) (a : Option (ℤ × List ℕ))
      → c.batch_size ≡ pos 0
      → deliver sdk node c round a ≢ none
  unfolding deliver answered
  zero_fails round none q h = cc
  zero_fails round (some (code, hash)) q h =
      both_fail (not (eqb_ℤ code (pos 0))) (eqb_ℤ c.batch_size (pos 0)) (refused code)
        divided_by_zero _ (ap (λ n. eqb_ℤ n (pos 0)) q) h

  sent_on :
      (t : Tx) (later : Funded) (e : Option SeedFailure)
      → (sent_with sdk node c t later e).ending ≡ no_fuel
      → (later.ending ≡ no_fuel) × (e ≡ none)
  unfolding sent_with cons_tx
  sent_on t later none h = (h, refl)
  sent_on t later (some e) h = cc

  -- A round that ends without fuel has delivered its transaction.
  record IsPassed (round : ℕ) (later : Funded) (r : Result SeedFailure (Tx × List ℕ)) : Type 0 where
    starved : later.ending ≡ no_fuel
    made : (x : Tx × List ℕ) × (r ≡ ok x)
    delivered : (a : Option (ℤ × List ℕ)) × (deliver sdk node c round a ≡ none)

  round-IsPassed :
      (round : ℕ) (later : Funded) (r : Result SeedFailure (Tx × List ℕ))
      → (fund_with sdk node c round later r).ending ≡ no_fuel
      → IsPassed round later r
  unfolding fund_with
  round-IsPassed round later (err e) h = cc
  round-IsPassed round later (ok (t, bytes)) h =
      let (e, d) = sent_on t later (deliver sdk node c round (node.broadcast round bytes)) h in
      record { starved = e; made = ((t, bytes), refl); delivered = (node.broadcast round bytes, d) }

  no_batch :
      (n : ℕ) (needs : List (List ℕ)) (seq : ℕ) (p : Plan) (x : Tx × List ℕ)
      → (batch_of (negsuc n) needs >>= λ batch. prepare sdk node c p seq batch) ≢ ok x
  unfolding batch_of
  no_batch n needs seq p x h = cc

  fund_from_ends :
      (p : Plan) (fuel round seq : ℕ) (needs : List (List ℕ))
      → length needs ≤ fuel
      → (fund_from sdk node c fuel round seq p needs).ending ≢ no_fuel
  unfolding fund_from
  fund_from_ends p fuel round seq [] l h = cc
  fund_from_ends p zero round seq (a ∷ rest) l h = absurd (omega arith)
  fund_from_ends p (suc fuel) round seq (a ∷ rest) l h =
      let left = after_batch c.batch_size (a ∷ rest) in
      let later = fund_from sdk node c fuel (suc round) (next_sequence seq) p left in
      let v =
        round-IsPassed round later
          (batch_of c.batch_size (a ∷ rest) >>= λ batch. prepare sdk node c p seq batch) h in
      elim (ℤ-cases c.batch_size) [
        | inl (zero, q) ↦ zero_fails round v.delivered.0 q v.delivered.1
        | inl (suc n, q) ↦
            let k : length left ≡ suc (length rest) - suc n =
              subst (λ z. length (after_batch z (a ∷ rest)) ≡ suc (length rest) - suc n) (sym q)
                (unfold after_batch in length-drop (suc n) (a ∷ rest)) in
            fund_from_ends p fuel (suc round) (next_sequence seq) left (omega (arith, k)) v.starved
        | inr (n, q) ↦
            let made : (batch_of (negsuc n) (a ∷ rest) >>= λ batch. prepare sdk node c p seq batch)
                ≡ ok v.made.0 =
              subst
                (λ z.
                  (batch_of z (a ∷ rest) >>= λ batch. prepare sdk node c p seq batch) ≡ ok v.made.0)
                q v.made.1 in
            no_batch n (a ∷ rest) seq p v.made.0 made
      ]

  checked_starved : (r : Result SeedFailure (List (List ℕ))) → verified sdk node c r ≢ no_fuel
  unfolding verified
  checked_starved (err e) h = cc
  checked_starved (ok []) h = cc
  checked_starved (ok (a ∷ rest)) h = cc

  still_starved : (p : Plan) (e : Ending) → verify_after sdk node c p e ≡ no_fuel → e ≡ no_fuel
  unfolding verify_after
  still_starved p finished h =
      absurd (checked_starved (low_ones sdk node c node.after p.coin.coin_amount p.needs) h)
  still_starved p (failed e) h = cc
  still_starved p no_fuel h = refl

  needs_ends : (p : Plan) (needs : List (List ℕ)) → (fund_needs sdk node c p needs).ending ≢ no_fuel
  unfolding fund_needs
  needs_ends p [] h = cc
  needs_ends p (a ∷ rest) h =
      fund_from_ends p (suc (length rest)) 0 p.account.1 (a ∷ rest) (omega arith) (
        still_starved p (fund_from sdk node c (suc (length rest)) 0 p.account.1 p (a ∷ rest)).ending
          h)

  planned_ends : (r : Result SeedFailure Plan) → (seed_planned sdk node c r).ending ≢ no_fuel
  unfolding seed_planned fund_planned
  planned_ends (err e) h = cc
  planned_ends (ok p) h = needs_ends p p.needs h

  -- The seeding comes to an end, well or with a failure or a panic, for every batch size, zero and
  -- negative ones included: as many rounds as accounts that need funds are enough.
  pub seed_accounts_ends : (seed_accounts sdk node c).ending ≢ no_fuel
  unfolding seed_accounts
  seed_accounts_ends = planned_ends (plan sdk node c)
