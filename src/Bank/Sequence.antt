-- ===== src/Bank/Sequence.antt =====
-- The sequence numbers of the clients of pkg/client/bank_client.go.
use perpx_load_test.Base.{
  ℕ, ◌+◌, ◌%◌, ◌≡◌, ◌⊎◌, inl, inr, refl, sym, ap, subst, Bool, true, false, not, Option, none, some,
  List, [], ◌∷◌, if◌then◌else◌, bind_ok, guard_ok, Result, ok, err,
}
use perpx_load_test.Base.Int.{two64}
use perpx_load_test.Seed.Funding.{Message, Tx, Get, Sdk}
use perpx_load_test.Bank.{
  BankFailure, bad_sender, invalid_denom, Client, taken_account, account_url, query_taken,
  ensure_queried, message_of, create_msg, tx_with, bytes_of, encoded, signed_with, make_tx,
  taken_tx, generate_tx, generate_txs,
}

passed :
    (first second : Bool) (e d : BankFailure) (made msg : Message)
    → (if first then err e else if second then err d else ok made) ≡ ok msg
    → msg ≡ made
passed true second e d made msg h = cc
passed false true e d made msg h = cc
passed false false e d made msg h = cc

module _ (sdk : Sdk) (valid_addr : List ℕ → Bool) (c : Client) where
  -- The client's transaction with an account number and a sequence number: one unit to the sink.
  abbrev pub payment : ℕ → ℕ → Tx
  payment n s = record {
    messages =
        record {
          sender = c.addr;
          recipient = c.strategy.sink;
          amount = record { coin_denom = c.strategy.denom; coin_amount = 1 };
        }
        ∷ [];
    fee = record { coin_denom = c.strategy.denom; coin_amount = 5_000_000_000_000_000 };
    gas_limit = 200_000;
    chain = c.strategy.chain_id;
    number = n;
    sequence = s;
  }

  -- A call's result: if it has given bytes, they encode this transaction with a signature of it.
  abbrev pub IsTxOf : ℕ → ℕ → Result BankFailure (List ℕ) → Type 0
  IsTxOf n s (err e) = Unit {0}
  IsTxOf n s (ok bytes) =
      (signature : List ℕ) × ((sdk.sign c.secret (payment n s) ≡ some signature)
        × (sdk.encode (payment n s) signature ≡ some bytes))

  -- Results with the sequence numbers from `s` on, each taken once, by calls without a transaction too.
  abbrev pub Counted : ℕ → ℕ → List (Result BankFailure (List ℕ)) → Type 0
  Counted n s [] = Unit {0}
  Counted n s (r ∷ rs) = IsTxOf n s r × Counted n ((s + 1) % two64) rs

  -- Results before the account is known: failures of the query, up to the first query that succeeds,
  -- whose numbers count from there on.
  abbrev pub Sequenced : List (List ℕ → Get) → List (Result BankFailure (List ℕ)) → Type 0
  Sequenced [] rs = rs ≡ []
  Sequenced (get ∷ gets) [] = ⊥
  Sequenced (get ∷ gets) (r ∷ rs) =
      ((e : BankFailure) × ((taken_account sdk valid_addr (get (account_url sdk valid_addr c))
            ≡ err e)
          × ((r ≡ err e) × Sequenced gets rs)))
      ⊎ ((a : ℕ × ℕ) × ((taken_account sdk valid_addr (get (account_url sdk valid_addr c)) ≡ ok a)
            × Counted a.0 a.1 (r ∷ rs)))

  abbrev queried : ℕ → ℕ → Client
  queried n s = record c { account_num = n; sequence = s; account_queried = true }

  bytes_kept :
      (o : Option (List ℕ)) (bytes : List ℕ) → bytes_of sdk valid_addr o ≡ ok bytes → o ≡ some bytes
  unfolding bytes_of
  bytes_kept none bytes h = cc
  bytes_kept (some b) bytes h = cc

  encoded_tx :
      (tx : Tx) (sig : Option (List ℕ)) (bytes : List ℕ)
      → encoded sdk valid_addr tx sig ≡ ok bytes
      → (s : List ℕ) × ((sig ≡ some s) × (sdk.encode tx s ≡ some bytes))
  unfolding encoded
  encoded_tx tx none bytes h = cc
  encoded_tx tx (some s) bytes h = (s, (refl, bytes_kept (sdk.encode tx s) bytes h))

  created_msg :
      (msg : Message)
      → create_msg sdk valid_addr c.strategy c.addr ≡ ok msg
      → msg ≡ message_of sdk valid_addr c.strategy c.addr
  unfolding create_msg
  created_msg msg h =
      passed (not (valid_addr c.addr)) (not (sdk.valid_denom c.strategy.denom)) bad_sender
        invalid_denom (message_of sdk valid_addr c.strategy c.addr) msg h

  make_tx-IsTxOf :
      (n s : ℕ) (r : Result BankFailure (List ℕ))
      → make_tx sdk valid_addr (queried n s) s ≡ r
      → IsTxOf n s r
  unfolding make_tx signed_with tx_with message_of
  make_tx-IsTxOf n s (err e) h = tt
  make_tx-IsTxOf n s (ok bytes) h =
      let (msg, (m, h₁)) =
        bind_ok (create_msg sdk valid_addr c.strategy c.addr)
          (signed_with sdk valid_addr (queried n s) s) bytes h in
      let g : signed_with sdk valid_addr (queried n s) s
            (message_of sdk valid_addr c.strategy c.addr)
          ≡ ok bytes =
        subst (λ k. signed_with sdk valid_addr (queried n s) s k ≡ ok bytes) (created_msg msg m)
          h₁ in
      let (_, h₂) = guard_ok _ _ _ _ g in
      encoded_tx (payment n s) (sdk.sign c.secret (payment n s)) bytes h₂

  counted-Counted :
      (gets : List (List ℕ → Get)) (n s : ℕ)
      → Counted n s (generate_txs sdk valid_addr gets (queried n s)).1
  unfolding generate_txs generate_tx ensure_queried taken_tx
  counted-Counted [] n s = tt
  counted-Counted (get ∷ gets) n s =
      (make_tx-IsTxOf n s _ refl, counted-Counted gets n ((s + 1) % two64))

  abbrev fresh : Client
  fresh = record c { account_queried = false }

  query_step :
      (get : List ℕ → Get) (gets : List (List ℕ → Get)) (r : Result BankFailure (ℕ × ℕ))
      → taken_account sdk valid_addr (get (account_url sdk valid_addr c)) ≡ r
      → Sequenced gets (generate_txs sdk valid_addr gets fresh).1
      → Sequenced (get ∷ gets) (
          let first = taken_tx sdk valid_addr fresh (query_taken sdk valid_addr r fresh) in
          first.1 ∷ (generate_txs sdk valid_addr gets first.0).1)
  unfolding taken_tx query_taken
  query_step get gets (err e) q v = inl (e, (q, (refl, v)))
  query_step get gets (ok (n, s)) q v =
      inr ((n, s), (q, (make_tx-IsTxOf n s _ (refl), counted-Counted gets n ((s + 1) % two64))))

  fresh-Sequenced :
      (gets : List (List ℕ → Get)) → Sequenced gets (generate_txs sdk valid_addr gets fresh).1
  unfolding generate_txs generate_tx ensure_queried
  fresh-Sequenced [] = refl
  fresh-Sequenced (get ∷ gets) =
      query_step get gets (taken_account sdk valid_addr (get (account_url sdk valid_addr c))) refl
        (fresh-Sequenced gets)

  -- Whatever the node answers to each query: the calls of a client that has not asked for its account
  -- fail up to the first one whose query succeeds, which asks at the client's own URL; from there on
  -- every call takes the next sequence number from the answered one on, modulo 2^64, also a call from
  -- which no transaction comes; and what a call gives is the encoding of a signed transaction of one
  -- unit to the sink with that number.
  pub generate_txs-Sequenced :
      (gets : List (List ℕ → Get))
      → c.account_queried ≡ false
      → Sequenced gets (generate_txs sdk valid_addr gets c).1
  generate_txs-Sequenced gets h =
      subst (λ d. Sequenced gets (generate_txs sdk valid_addr gets d).1)
        (sym (ap (λ b. record c { account_queried = b }) h)) (fresh-Sequenced gets)
