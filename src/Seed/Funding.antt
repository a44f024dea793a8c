-- ===== src/Seed/Funding.antt =====
-- pkg/seed/seed.go: `seedAccounts`. The Cosmos SDK, its hashes and signatures, the JSON decoders and
-- the node are parameters; an amount of the SDK is a number without the SDK's limit of 256 bits.
use perpx_load_test.Base.{
  ℕ, zero, suc, ◌+◌, ◌*◌, ◌%◌, Bool, true, not, Option, none, some, List, [], ◌∷◌, ◌++◌,
  if◌then◌else◌, ltb, ◌==◌, codes, same, Result, ok, err, ◌>>=◌,
}
use perpx_load_test.Base.Int.{ℤ, pos, negsuc, sub_ℕ, ◌+ℤ◌, wrap64}
use perpx_load_test.Base.Decimal.{decimal}
use perpx_load_test.Rpc.{RpcFailure, parse_uint}
use perpx_load_test.Seed.{
  Config, SeedFailure, bad_fund_amount, balance_query, balance_status, balance_body, bad_amount,
  insufficient_funds, account_query, account_status, account_body, bad_number, negative_coin,
  bad_denom, negative_length, seed_secret, rest_url,
}

pub record Coin : Type 0 where
  pub coin_denom : List ℕ
  pub coin_amount : ℕ

pub record Message : Type 0 where
  pub sender : List ℕ
  pub recipient : List ℕ
  pub amount : Coin

pub record Tx : Type 0 where
  pub messages : List Message
  pub fee : Coin
  pub gas_limit : ℕ
  pub chain : List ℕ
  pub number : ℕ
  pub sequence : ℕ

pub record TxStatus : Type 0 where
  pub height : List ℕ
  pub code : ℤ

-- What a GET request returns: no response, or its status and its body.
pub data Get : Type 0 where
  unreachable : Get
  response : ℕ → List ℕ → Get

-- The functions of the SDK and of the standard library that the code calls.
pub record Sdk : Type 0 where
  pub parse_coin : List ℕ → Option Coin
  pub valid_denom : List ℕ → Bool
  pub new_int : List ℕ → Option ℤ
  pub derive : List ℕ → Option (List ℕ)
  pub sha256 : List ℕ → List ℕ
  pub address : List ℕ → List ℕ
  pub set_messages : List Message → Bool
  pub sign : List ℕ → Tx → Option (List ℕ)
  pub encode : Tx → List ℕ → Option (List ℕ)
  pub decode_balances : List ℕ → Option (List (List ℕ × List ℕ))
  pub decode_account : List ℕ → Option (List ℕ × List ℕ)
  pub decode_status : List ℕ → Option TxStatus

-- The node: its answers to a URL before and after the funding, whether its gRPC address can be
-- dialled, its answer to the transaction with a number, and the answers about that transaction within
-- 30 seconds.
pub record Node : Type 0 where
  pub before : List ℕ → Get
  pub after : List ℕ → Get
  pub dial : List ℕ → Bool
  pub broadcast : ℕ → List ℕ → Option (ℤ × List ℕ)
  pub polls : ℕ → List ℕ → List Get

unfoldable pub scale : ℕ → ℤ → ℤ
scale k (pos n) = pos (k * n)
scale k (negsuc n) = sub_ℕ 0 (k * suc n)

unfoldable pub balances_url : List ℕ → List ℕ → List ℕ
balances_url url addr = url ++ codes "/cosmos/bank/v1beta1/balances/" ++ addr

-- What is known before the first transaction.
pub record Plan : Type 0 where
  pub secret : List ℕ
  pub coin : Coin
  pub account : ℕ × ℕ
  pub needs : List (List ℕ)

module _ (sdk : Sdk) (node : Node) (c : Config) where
  -- `sdk.NewCoin`, which panics.
  unfoldable pub new_coin : List ℕ → ℤ → Result SeedFailure ℕ
  new_coin d (negsuc n) = if sdk.valid_denom d then err negative_coin else err bad_denom
  new_coin d (pos n) = if sdk.valid_denom d then ok n else err bad_denom

  unfoldable pub total_required : Coin → Result SeedFailure ℕ
  unfolding new_coin scale
  total_required coin = new_coin c.denom (wrap64 (scale 10000 c.workers)) >>= λ fees.
      new_coin c.denom (scale coin.coin_amount c.workers +ℤ pos fees)

  unfoldable pub add_balance : List ℕ → ℕ → ℕ → ℕ
  add_balance d n total = if same d c.denom then total + n else total

  -- The balance in the denomination of the configuration; an amount that is no number fails for the
  -- funding account and is passed over for another.
  unfoldable pub seed_balance : ℕ → List (List ℕ × List ℕ) → Result SeedFailure ℕ
  unfolding new_coin add_balance
  seed_balance total [] = ok total
  seed_balance total ((d, a) ∷ rest) = elim (sdk.new_int a) [
    | none ↦ err (bad_amount a)
    | some z ↦ new_coin d z >>= λ n. seed_balance (add_balance d n total) rest
  ]

  unfoldable pub account_balance : ℕ → List (List ℕ × List ℕ) → Result SeedFailure ℕ
  unfolding new_coin add_balance
  account_balance total [] = ok total
  account_balance total ((d, a) ∷ rest) = elim (sdk.new_int a) [
    | none ↦ account_balance total rest
    | some z ↦ new_coin d z >>= λ n. account_balance (add_balance d n total) rest
  ]

  unfoldable pub taken_balance : Get → Result SeedFailure ℕ
  unfolding seed_balance
  taken_balance unreachable = err balance_query
  taken_balance (response status body) =
      if not (status == 200)
      then err (balance_status status)
      else elim (sdk.decode_balances body) [ none ↦ err balance_body | some l ↦ seed_balance 0 l ]

  unfoldable pub number_of : Result RpcFailure ℕ → Result SeedFailure ℕ
  number_of (ok n) = ok n
  number_of (err e) = err (bad_number e)

  unfoldable pub taken_account : Get → Result SeedFailure (ℕ × ℕ)
  unfolding number_of
  taken_account unreachable = err account_query
  taken_account (response status body) =
      if not (status == 200) then err (account_status status) else elim (sdk.decode_account body) [
        | none ↦ err account_body
        | some a ↦ number_of (parse_uint a.0) >>= λ n. number_of (parse_uint a.1) >>= λ s. ok (n, s)
      ]

  unfoldable pub bench_addr : ℕ → List ℕ
  bench_addr i =
      let phrase =
        codes "bench worker " ++ decimal i ++ codes " seed phrase for load testing account" in
      sdk.address (sdk.sha256 (sdk.sha256 phrase ++ (i % 256 ∷ [])))

  unfoldable pub bench_from : ℕ → ℕ → List (List ℕ)
  unfolding bench_addr
  bench_from i zero = []
  bench_from i (suc n) = bench_addr i ∷ bench_from (suc i) n

  -- `make` and the loop over the workers.
  unfoldable pub bench_addrs : ℤ → Result SeedFailure (List (List ℕ))
  unfolding bench_from
  bench_addrs (negsuc n) = err negative_length
  bench_addrs (pos n) = ok (bench_from 0 n)

  -- Whether an account counts as one with too little.
  unfoldable pub is_low : ℕ → Get → Result SeedFailure Bool
  unfolding account_balance
  is_low amount unreachable = ok true
  is_low amount (response status body) =
      if not (status == 200) then ok true else elim (sdk.decode_balances body) [
        | none ↦ ok true
        | some l ↦ account_balance 0 l >>= λ b. ok (ltb b amount)
      ]

  -- The accounts with too little, by the answers to their URLs.
  unfoldable pub low_ones : (List ℕ → Get) → ℕ → List (List ℕ) → Result SeedFailure (List (List ℕ))
  unfolding is_low balances_url
  low_ones get amount [] = ok []
  low_ones get amount (a ∷ rest) = is_low amount (get (balances_url (rest_url c.rpc) a)) >>= λ low.
      low_ones get amount rest >>= λ more. ok (if low then a ∷ more else more)

  unfoldable pub parsed_coin : Option Coin → Result SeedFailure Coin
  parsed_coin none = err bad_fund_amount
  parsed_coin (some coin) = ok coin

  unfoldable pub enough : ℕ → ℕ → Result SeedFailure (Unit {0})
  enough has required = if ltb has required then err (insufficient_funds has required) else ok tt

  -- The seed's balance and then its account number and sequence.
  unfoldable pub checked : ℕ → List ℕ → Result SeedFailure (ℕ × ℕ)
  unfolding taken_balance enough taken_account balances_url
  checked required secret =
      taken_balance (node.before (balances_url (rest_url c.rpc) (sdk.address secret))) >>= λ has.
      enough has required >>= λ _.
      taken_account (
        node.before
          (rest_url c.rpc ++ codes "/cosmos/auth/v1beta1/accounts/" ++ sdk.address secret))

  unfoldable pub plan_for : Coin → List ℕ → ℕ × ℕ → List (List ℕ) → Result SeedFailure Plan
  plan_for coin secret account needs =
      ok (record { secret = secret; coin = coin; account = account; needs = needs })

  unfoldable pub listed : Coin → List ℕ → ℕ × ℕ → List (List ℕ) → Result SeedFailure Plan
  unfolding low_ones plan_for
  listed coin secret account addrs =
      low_ones node.before coin.coin_amount addrs >>= plan_for coin secret account

  unfoldable pub with_account : Coin → List ℕ → ℕ × ℕ → Result SeedFailure Plan
  unfolding bench_addrs listed
  with_account coin secret account = bench_addrs c.workers >>= listed coin secret account

  unfoldable pub with_secret : Coin → ℕ → List ℕ → Result SeedFailure Plan
  unfolding checked with_account
  with_secret coin required secret = checked required secret >>= with_account coin secret

  unfoldable pub with_total : Coin → ℕ → Result SeedFailure Plan
  unfolding with_secret
  with_total coin required = seed_secret sdk.derive c >>= with_secret coin required

  unfoldable pub with_coin : Coin → Result SeedFailure Plan
  unfolding total_required with_total
  with_coin coin = total_required coin >>= with_total coin

  -- Up to the first batch.
  unfoldable pub plan : Result SeedFailure Plan
  unfolding parsed_coin with_coin
  plan = parsed_coin (sdk.parse_coin c.fund_amount) >>= with_coin
