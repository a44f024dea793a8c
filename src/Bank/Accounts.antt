-- ===== src/Bank/Accounts.antt =====
-- The accounts of the clients of pkg/client/factory.go, and those that pkg/seed/seed.go funds.
use perpx_load_test.Base.{
  ℕ, zero, suc, ◌+◌, ◌%◌, ◌<◌, ◌≡◌, refl, sym, ap, ◌∙◌, Bool, false, List, [], ◌∷◌, ◌++◌, String,
  arith, codes, map, Result, ok, err, ◌>>=◌,
}
use perpx_load_test.Base.Int.{pos, add_int64, add_int64_pos, to_uint64, two63, two64}
use perpx_load_test.Base.Decimal.{decimal, decimal_int}
use perpx_load_test.Config.{Config}
use perpx_load_test.Seed
use perpx_load_test.Seed.Funding.{Sdk, Node, bench_addr, bench_from, bench_addrs}
use perpx_load_test.Bank.{
  BankFailure, Strategy, Client, Factory, worker_secret, new_bank_client, env_strategy,
  new_strategy, counted, new_client, rpc_endpoint, rest_endpoint,
}

abbrev prepend : Client → Result BankFailure (List Client) → Result BankFailure (List Client)
prepend c r = r >>= λ cs. ok (c ∷ cs)

abbrev joined :
    Result BankFailure Client → Result BankFailure (List Client) → Result BankFailure (List Client)
joined (ok c) r = prepend c r
joined (err e) r = err e

module _ (sdk : Sdk) (valid_addr : List ℕ → Bool) (node : Node) (env : List ℕ → List ℕ)
    (c : Config) where
  -- `n` clients of a factory, one after the other.
  abbrev pub new_clients : ℕ → Factory → Result BankFailure (List Client)
  new_clients zero f = ok []
  new_clients (suc n) f =
      joined (new_client sdk valid_addr env c f).1
        (new_clients n (new_client sdk valid_addr env c f).0)

  same_addr :
      (s : Seed.Config) (i : ℕ)
      → i < two63
      → sdk.address (worker_secret sdk valid_addr (pos i)) ≡ bench_addr sdk node s i
  unfolding worker_secret bench_addr decimal_int to_uint64
  same_addr s i h =
      let phrase =
        codes "bench worker " ++ decimal i ++ codes " seed phrase for load testing account" in
      let e : i % two64 % 256 ≡ i % 256 = omega arith in
      ap (λ m. sdk.address (sdk.sha256 (sdk.sha256 phrase ++ (m ∷ [])))) e

  counted_to :
      (strategy : Strategy) (k : ℕ) (client : Client)
      → new_bank_client sdk valid_addr c strategy (pos k) c.endpoints ≡ ok client
      → add_int64 (pos k) (pos 1) ≡ pos (suc k)
      → counted sdk valid_addr c (record { worker_counter = pos k }) (ok strategy)
        ≡ (record { worker_counter = pos (suc k) }, ok client)
  unfolding counted
  counted_to strategy k client made next =
      ap (λ r. (record { worker_counter = add_int64 (pos k) (pos 1) }, r)) made
      ∙ ap (λ z. (record { worker_counter = z }, ok client)) next

  one_client :
      (strategy : Strategy) (e : String) (es : List String) (k : ℕ)
      → new_strategy sdk valid_addr (env_strategy sdk valid_addr env) ≡ ok strategy
      → c.endpoints ≡ e ∷ es
      → suc k < two63
      → (client : Client) × ((client.addr ≡ sdk.address (worker_secret sdk valid_addr (pos k)))
          × (new_client sdk valid_addr env c (record { worker_counter = pos k })
              ≡ (record { worker_counter = pos (suc k) }, ok client)))
  unfolding new_client
  one_client strategy e es k h q l =
      let client : Client = record {
        config = c;
        strategy = strategy;
        secret = worker_secret sdk valid_addr (pos k);
        addr = sdk.address (worker_secret sdk valid_addr (pos k));
        account_num = 0;
        sequence = 0;
        account_queried = false;
        rest_url = rest_endpoint (rpc_endpoint (codes e));
      } in
      let made : new_bank_client sdk valid_addr c strategy (pos k) c.endpoints ≡ ok client =
        ap (new_bank_client sdk valid_addr c strategy (pos k)) q ∙ unfold new_bank_client in refl in
      let next : add_int64 (pos k) (pos 1) ≡ pos (suc k) =
        add_int64_pos k 1 (omega arith) ∙ ap pos (omega arith) in
      (
        client,
        (
          refl,
          ap (counted sdk valid_addr c (record { worker_counter = pos k })) h
              ∙ counted_to strategy k client made next,
        ),
      )

  clients_from :
      (s : Seed.Config) (strategy : Strategy) (e : String) (es : List String) (n k : ℕ)
      → new_strategy sdk valid_addr (env_strategy sdk valid_addr env) ≡ ok strategy
      → c.endpoints ≡ e ∷ es
      → k + n < two63
      → (clients : List Client) × ((new_clients n (record { worker_counter = pos k }) ≡ ok clients)
          × (map (λ d. d.addr) clients ≡ bench_from sdk node s k n))
  unfolding bench_from
  clients_from s strategy e es zero k h q l = ([], (refl, refl))
  clients_from s strategy e es (suc n) k h q l =
      let (client, (a, made)) = one_client strategy e es k h q (omega arith) in
      let (rest, (r, b)) = clients_from s strategy e es n (suc k) h q (omega arith) in
      (
        client ∷ rest,
        (
          ap (λ m. joined m.1 (new_clients n m.0)) made ∙ ap (prepend client) r,
          ap (λ x. x ∷ map (λ d. d.addr) rest) (a ∙ same_addr s k (omega arith))
              ∙ ap (λ l. bench_addr sdk node s k ∷ l) b,
        ),
      )

  -- Where the environment's strategy is accepted and the configuration has an endpoint: the first `n`
  -- clients of a new factory, for each `n` below 2^63, have the very accounts, in their order, that the
  -- seeding of `n` workers funds, whatever the seeding's other options are.
  pub new_clients-bench_addrs :
      (s : Seed.Config) (strategy : Strategy) (e : String) (es : List String) (n : ℕ)
      → new_strategy sdk valid_addr (env_strategy sdk valid_addr env) ≡ ok strategy
      → c.endpoints ≡ e ∷ es
      → n < two63
      → (clients : List Client) × ((new_clients n (record { worker_counter = pos 0 }) ≡ ok clients)
          × (bench_addrs sdk node s (pos n) ≡ ok (map (λ d. d.addr) clients)))
  unfolding bench_addrs
  new_clients-bench_addrs s strategy e es n h q l =
      let (clients, (made, same)) = clients_from s strategy e es n 0 h q (omega arith) in
      (clients, (made, ap ok (sym same)))
