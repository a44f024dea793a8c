-- ===== src/Seed/Batches.antt =====
-- The batches of pkg/seed/seed.go.
use perpx_load_test.Base.{
  ℕ, zero, suc, ◌+◌, ◌*◌, ◌≤◌, ◌≡◌, refl, sym, ap, subst, ◌∙◌, not, Option, none, some, List, [],
  ◌∷◌, ◌++◌, arith, length, length-take, length-map, map, take, drop, take_add, All, bind_ok,
  guard_ok, Result, ok, err, ◌>>=◌,
}
use perpx_load_test.Base.Int.{pos}
use perpx_load_test.Seed.{Config, SeedFailure, bad_messages, no_connection, grpc_addr}
use perpx_load_test.Seed.Funding.{Coin, Tx, Sdk, Node, Plan, plan}
use perpx_load_test.Seed.Delivery.{
  Funded, cons_tx, message_to, gas_for, batch_of, after_batch, tx_for, signed, dialled, sealed,
  fee_for, prepare, deliver, next_sequence, sent_with, fund_with, fund_from, fund_needs,
  fund_planned, seed_planned, seed_accounts,
}

-- Who is paid by the transactions, in their order.
abbrev pub recipients : List Tx → List (List ℕ)
recipients [] = []
recipients (t ∷ ts) = map (λ m. m.recipient) t.messages ++ recipients ts

-- Sequence numbers that follow each other.
abbrev pub Numbered : ℕ → List Tx → Type 0
Numbered seq [] = Unit {0}
Numbered seq (t ∷ ts) = (t.sequence ≡ seq) × Numbered (next_sequence seq) ts

-- A transaction of the plan for at most `b` accounts.
pub record IsPayment (sdk : Sdk) (node : Node) (c : Config) (p : Plan) (b : ℕ) (t : Tx)
    : Type 0 where
  pub few : length t.messages ≤ b
  pub pays : All (λ m. (m.sender ≡ sdk.address p.secret) × (m.amount ≡ p.coin)) t.messages
  pub gas : t.gas_limit ≡ gas_for (length t.messages)
  pub priced : fee_for sdk node c (length t.messages) ≡ ok t.fee.coin_amount
  pub of_chain : (t.chain ≡ c.chain_id) × (t.number ≡ p.account.0)

-- Transactions that pay the first of the accounts, in batches of `b`.
pub record IsBatched (sdk : Sdk) (node : Node) (c : Config) (p : Plan) (b seq : ℕ)
    (needs : List (List ℕ)) (ts : List Tx) : Type 0 where
  pub paid : recipients ts ≡ take (length ts * b) needs
  pub numbered : Numbered seq ts
  pub payments : All (IsPayment sdk node c p b) ts

map_recipients :
    (from : List ℕ) (coin : Coin) (addrs : List (List ℕ))
    → map (λ m. m.recipient) (map (message_to from coin) addrs) ≡ addrs
unfolding message_to
map_recipients from coin [] = refl
map_recipients from coin (a ∷ rest) = ap (λ r. a ∷ r) (map_recipients from coin rest)

map_pays :
    (from : List ℕ) (coin : Coin) (addrs : List (List ℕ))
    → All (λ m. (m.sender ≡ from) × (m.amount ≡ coin)) (map (message_to from coin) addrs)
unfolding message_to
map_pays from coin [] = tt
map_pays from coin (a ∷ rest) = ((refl, refl), map_pays from coin rest)

module _ (sdk : Sdk) (node : Node) (c : Config) (p : Plan) (b : ℕ) where
  tx_for-IsPayment :
      (seq fee : ℕ) (needs : List (List ℕ))
      → fee_for sdk node c (length (take b needs)) ≡ ok fee
      → IsPayment sdk node c p b (tx_for sdk node c p seq (take b needs) fee)
  unfolding tx_for
  tx_for-IsPayment seq fee needs e =
      let n = length-map (take b needs) (message_to (sdk.address p.secret) p.coin) in
      record {
        few = omega (arith, n, length-take b needs);
        pays = map_pays (sdk.address p.secret) p.coin (take b needs);
        gas = ap gas_for (sym n);
        priced = ap (fee_for sdk node c) n ∙ e;
        of_chain = (refl, refl);
      }

  more_batches :
      (seq fee : ℕ) (needs : List (List ℕ)) (ts : List Tx)
      → fee_for sdk node c (length (take b needs)) ≡ ok fee
      → IsBatched sdk node c p b (next_sequence seq) (drop b needs) ts
      → IsBatched sdk node c p b seq needs (tx_for sdk node c p seq (take b needs) fee ∷ ts)
  more_batches seq fee needs ts e v = record {
    paid =
        let k : b + length ts * b ≡ suc (length ts) * b = grind arith in
        unfold tx_for in
        rw (map_recipients (sdk.address p.secret) p.coin (take b needs), v.paid)
          (take_add b (length ts * b) needs ∙ ap (λ n. take n needs) k);
    numbered = unfold tx_for in (refl, v.numbered);
    payments = (tx_for-IsPayment seq fee needs e, v.payments);
  }

  no_batches : (seq : ℕ) (needs : List (List ℕ)) → IsBatched sdk node c p b seq needs []
  no_batches seq needs = record {
    paid = let e : 0 ≡ 0 * b = omega arith in ap (λ k. take k needs) e;
    numbered = tt;
    payments = tt;
  }

  dialled_tx : (u t : Tx) (bytes sent : List ℕ) → dialled sdk node c u bytes ≡ ok (t, sent) → t ≡ u
  unfolding dialled
  dialled_tx u t bytes sent h =
      let (_, q) =
        guard_ok (not (node.dial (grpc_addr c.rpc))) no_connection (ok (u, bytes)) (t, sent) h in
      cc

  sealed_tx : (u t : Tx) (sent : List ℕ) → sealed sdk node c p u ≡ ok (t, sent) → t ≡ u
  unfolding sealed
  sealed_tx u t sent h =
      let (bytes, (_, q)) = bind_ok (signed sdk node c p u) (dialled sdk node c u) (t, sent) h in
      dialled_tx u t bytes sent q

  prepared_tx :
      (seq : ℕ) (batch : List (List ℕ)) (t : Tx) (sent : List ℕ)
      → prepare sdk node c p seq batch ≡ ok (t, sent)
      → (fee : ℕ) × ((fee_for sdk node c (length batch) ≡ ok fee)
          × (t ≡ tx_for sdk node c p seq batch fee))
  unfolding prepare
  prepared_tx seq batch t sent h =
      let (_, q) =
        guard_ok (not (sdk.set_messages (tx_for sdk node c p seq batch 0).messages)) bad_messages
          (fee_for sdk node c (length batch) >>= λ fee.
            sealed sdk node c p (tx_for sdk node c p seq batch fee))
          (t, sent) h in
      let (fee, (e, r)) =
        bind_ok (fee_for sdk node c (length batch))
          (λ fee. sealed sdk node c p (tx_for sdk node c p seq batch fee)) (t, sent) q in
      (fee, (e, sealed_tx (tx_for sdk node c p seq batch fee) t sent r))

  sent_with-IsBatched :
      (seq fee : ℕ) (needs : List (List ℕ)) (t : Tx) (later : Funded) (e : Option SeedFailure)
      → (fee_for sdk node c (length (take b needs)) ≡ ok fee)
        × (t ≡ tx_for sdk node c p seq (take b needs) fee)
      → IsBatched sdk node c p b (next_sequence seq) (drop b needs) later.txs
      → IsBatched sdk node c p b seq needs (sent_with sdk node c t later e).txs
  unfolding sent_with cons_tx
  sent_with-IsBatched seq fee needs t later none (e, h) v =
      rw h (more_batches seq fee needs later.txs e v)
  sent_with-IsBatched seq fee needs t later (some f) (e, h) v =
      rw h (more_batches seq fee needs [] e (no_batches (next_sequence seq) (drop b needs)))

  fund_with-IsBatched :
      (round seq : ℕ) (needs : List (List ℕ)) (later : Funded)
      (r : Result SeedFailure (Tx × List ℕ))
      → prepare sdk node c p seq (take b needs) ≡ r
      → IsBatched sdk node c p b (next_sequence seq) (drop b needs) later.txs
      → IsBatched sdk node c p b seq needs (fund_with sdk node c round later r).txs
  unfolding fund_with
  fund_with-IsBatched round seq needs later (err e) h v = no_batches seq needs
  fund_with-IsBatched round seq needs later (ok (t, bytes)) h v =
      let (fee, e) = prepared_tx seq (take b needs) t bytes h in
      sent_with-IsBatched seq fee needs t later
        (deliver sdk node c round (node.broadcast round bytes)) e v

  pub fund_from-IsBatched :
      (fuel round seq : ℕ) (needs : List (List ℕ))
      → c.batch_size ≡ pos b
      → IsBatched sdk node c p b seq needs (fund_from sdk node c fuel round seq p needs).txs
  unfolding fund_from batch_of after_batch
  fund_from-IsBatched fuel round seq [] h = no_batches seq []
  fund_from-IsBatched zero round seq (a ∷ rest) h = no_batches seq (a ∷ rest)
  fund_from-IsBatched (suc fuel) round seq (a ∷ rest) h =
      let later =
        fund_from sdk node c fuel (suc round) (next_sequence seq) p
          (after_batch c.batch_size (a ∷ rest)) in
      let v : IsBatched sdk node c p b (next_sequence seq) (drop b (a ∷ rest)) later.txs =
        subst
          (λ z. IsBatched sdk node c p b (next_sequence seq) (after_batch z (a ∷ rest)) later.txs) h
          (fund_from-IsBatched fuel (suc round) (next_sequence seq)
            (after_batch c.batch_size (a ∷ rest)) h) in
      subst
        (λ z.
          IsBatched sdk node c p b seq (a ∷ rest)
            (fund_with sdk node c round later
              (batch_of z (a ∷ rest) >>= λ batch. prepare sdk node c p seq batch)).txs)
        (sym h)
        (fund_with-IsBatched round seq (a ∷ rest) later
          (prepare sdk node c p seq (take b (a ∷ rest))) refl v)

  fund_needs-IsBatched :
      (needs : List (List ℕ))
      → c.batch_size ≡ pos b
      → IsBatched sdk node c p b p.account.1 needs (fund_needs sdk node c p needs).txs
  unfolding fund_needs
  fund_needs-IsBatched [] h = no_batches p.account.1 []
  fund_needs-IsBatched (a ∷ rest) h =
      fund_from-IsBatched (suc (length rest)) 0 p.account.1 (a ∷ rest) h

  pub seed_accounts-IsBatched :
      plan sdk node c ≡ ok p
      → c.batch_size ≡ pos b
      → IsBatched sdk node c p b p.account.1 p.needs (seed_accounts sdk node c).txs
  unfolding seed_accounts seed_planned fund_planned
  seed_accounts-IsBatched h k =
      subst (λ r. IsBatched sdk node c p b p.account.1 p.needs (seed_planned sdk node c r).txs)
        (sym h) (fund_needs-IsBatched p.needs k)
