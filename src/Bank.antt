-- ===== src/Bank.antt =====
-- The clients that send bank transactions: pkg/client/factory.go, pkg/client/bank_client.go and
-- pkg/strategies/bank_send.go. The Cosmos SDK and the answers over HTTP are parameters, as in Seed.
pub mod Sequence
pub mod Accounts
pub mod Examples
use perpx_load_test.Base.{
  ℕ, suc, ◌+◌, ◌-◌, ◌*◌, ◌%◌, Bool, true, false, not, ◌&&◌, ◌||◌, Option, none, some, List, [], ◌∷◌,
  ◌++◌, String, if◌then◌else◌, ltb, ◌==◌, length, take, drop, codes, same, contains, has_prefix,
  last_bytes, replace_first, replace_from, trim_suffix, first_error, Result, ok, err, ◌>>=◌,
}
use perpx_load_test.Base.Int.{ℤ, pos, leb_ℤ, add_int64, to_uint64, two64}
use perpx_load_test.Base.Decimal.{decimal_int}
use perpx_load_test.Config.{Config, FactoryError, no_connections, no_time_or_count, no_endpoint}
use perpx_load_test.Rpc.{RpcFailure, parse_uint}
use perpx_load_test.Seed.{get_env}
use perpx_load_test.Seed.Funding.{Coin, Message, Tx, Get, unreachable, response, Sdk}

-- What the clients fail with; the last two are panics.
pub data BankFailure : Type 0 where
  empty_chain_id : BankFailure
  empty_denom : BankFailure
  empty_sink : BankFailure
  bad_sink : BankFailure
  query_failed : BankFailure
  query_status : ℕ → BankFailure
  query_body : BankFailure
  bad_number : RpcFailure → BankFailure
  bad_sender : BankFailure
  bad_message : BankFailure
  not_signed : BankFailure
  not_encoded : BankFailure
  invalid_denom : BankFailure
  no_first_endpoint : BankFailure

pub record Strategy : Type 0 where
  pub chain_id : List ℕ
  pub denom : List ℕ
  pub sink : List ℕ

pub record Client : Type 0 where
  pub config : Config
  pub strategy : Strategy
  pub secret : List ℕ
  pub addr : List ℕ
  pub account_num : ℕ
  pub sequence : ℕ
  pub account_queried : Bool
  pub rest_url : List ℕ

pub record Factory : Type 0 where
  pub worker_counter : ℤ

-- `convertWebSocketToHTTP`; the length is compared with 11, one more than the suffix has.
unfoldable pub without_path : List ℕ → List ℕ
without_path url =
    if ltb 11 (length url) && same (last_bytes 11 url) (codes "/websocket")
    then take (length url - 11) url
    else url

unfoldable pub to_http : List ℕ → List ℕ
unfolding without_path
to_http url =
    if ltb 5 (length url) && has_prefix (codes "ws://") url
    then without_path (codes "http://" ++ drop 5 url)
    else if ltb 6 (length url) && has_prefix (codes "wss://") url
    then without_path (codes "https://" ++ drop 6 url)
    else url

-- The RPC endpoint, from the first endpoint of the configuration.
unfoldable pub rpc_endpoint : List ℕ → List ℕ
unfolding to_http
rpc_endpoint endpoint =
    if ltb 0 (length endpoint)
    then replace_from 0 (codes "127.0.0.1") (codes "localhost")
        (trim_suffix (codes "/websocket") (to_http endpoint))
    else codes "http://localhost:36657"

unfoldable pub rest_endpoint : List ℕ → List ℕ
rest_endpoint rpc =
    let local = replace_first (codes ":36657") (codes ":31317") rpc in
    let usual = replace_first (codes ":26657") (codes ":1317") rpc in
    if contains (codes ":31317") local
    then local
    else if contains (codes ":1317") usual
    then usual
    else codes "http://localhost:31317"

-- `PerpxBankClientFactory.ValidateConfig`.
unfoldable pub factory_checks : Config → List (Bool × FactoryError)
factory_checks c =
    (leb_ℤ c.connections (pos 0), no_connections)
    ∷ (leb_ℤ c.time (pos 0) && leb_ℤ c.count (pos 0), no_time_or_count)
    ∷ (length c.endpoints == 0, no_endpoint)
    ∷ []

unfoldable pub validate_config : Config → Option FactoryError
unfolding factory_checks first_error
validate_config c = first_error (factory_checks c)

unfoldable pub number_of : Result RpcFailure ℕ → Result BankFailure ℕ
number_of (ok n) = ok n
number_of (err e) = err (bad_number e)

-- `valid_addr` is `AccAddressFromBech32`.
module _ (sdk : Sdk) (valid_addr : List ℕ → Bool) where
  unfoldable pub strategy_checks : Strategy → List (Bool × BankFailure)
  strategy_checks s =
      (same s.chain_id [], empty_chain_id)
      ∷ (same s.denom [], empty_denom)
      ∷ (same s.sink [], empty_sink)
      ∷ (not (valid_addr s.sink), bad_sink)
      ∷ []

  unfoldable pub unless_failed : Option BankFailure → Strategy → Result BankFailure Strategy
  unless_failed none s = ok s
  unless_failed (some e) s = err e

  -- `NewBankSendStrategy`.
  unfoldable pub new_strategy : Strategy → Result BankFailure Strategy
  unfolding strategy_checks unless_failed first_error
  new_strategy s = unless_failed (first_error (strategy_checks s)) s

  -- The key of a client, by its worker's number, of which the last byte is added to the first hash.
  unfoldable pub worker_secret : ℤ → List ℕ
  unfolding decimal_int to_uint64
  worker_secret id = sdk.sha256 (
      sdk.sha256
        (codes "bench worker " ++ decimal_int id ++ codes " seed phrase for load testing account")
      ++ (to_uint64 id % 256 ∷ []))

  -- `NewPerpxBankClient`.
  unfoldable pub new_bank_client : Config → Strategy → ℤ → List String → Result BankFailure Client
  unfolding worker_secret rpc_endpoint rest_endpoint
  new_bank_client c s id [] = err no_first_endpoint
  new_bank_client c s id (e ∷ es) = ok (record {
    config = c;
    strategy = s;
    secret = worker_secret id;
    addr = sdk.address (worker_secret id);
    account_num = 0;
    sequence = 0;
    account_queried = false;
    rest_url = rest_endpoint (rpc_endpoint (codes e));
  })

  unfoldable pub env_strategy : (List ℕ → List ℕ) → Strategy
  unfolding get_env
  env_strategy env = record {
    chain_id = get_env env (codes "LOADTEST_CHAIN_ID") (codes "localperpxprotocol");
    denom = get_env env (codes "LOADTEST_DENOM") (codes "aperpx");
    sink =
        get_env env (codes "LOADTEST_SINK_ADDRESS")
          (codes "perpx1kyfmupa8z5jtxgf5f4gt285sepeg6eqnzvs25m");
  }

  -- The counter goes on once the strategy has been made.
  unfoldable pub counted :
      Config → Factory → Result BankFailure Strategy → Factory × Result BankFailure Client
  unfolding new_bank_client
  counted c f (err e) = (f, err e)
  counted c f (ok s) = (
    record f { worker_counter = add_int64 f.worker_counter (pos 1) },
    new_bank_client c s f.worker_counter c.endpoints,
  )

  -- `NewClient`.
  unfoldable pub new_client :
      (List ℕ → List ℕ) → Config → Factory → Factory × Result BankFailure Client
  unfolding counted new_strategy env_strategy
  new_client env c f = counted c f (new_strategy (env_strategy env))

  unfoldable pub taken_account : Get → Result BankFailure (ℕ × ℕ)
  unfolding number_of
  taken_account unreachable = err query_failed
  taken_account (response status body) =
      if not (status == 200) then err (query_status status) else elim (sdk.decode_account body) [
        | none ↦ err query_body
        | some a ↦ number_of (parse_uint a.0) >>= λ n. number_of (parse_uint a.1) >>= λ s. ok (n, s)
      ]

  unfoldable pub account_url : Client → List ℕ
  account_url c = c.rest_url ++ codes "/cosmos/auth/v1beta1/accounts/" ++ c.addr

  unfoldable pub query_taken : Result BankFailure (ℕ × ℕ) → Client → Result BankFailure Client
  query_taken (err e) c = err e
  query_taken (ok a) c = ok (record c { account_num = a.0; sequence = a.1; account_queried = true })

  -- `ensureAccountQueried`: the client after it, unless it fails, which changes nothing.
  unfoldable pub ensure_queried : (List ℕ → Get) → Client → Result BankFailure Client
  unfolding taken_account query_taken account_url
  ensure_queried get c =
      if c.account_queried then ok c else query_taken (taken_account (get (account_url c))) c

  unfoldable pub message_of : Strategy → List ℕ → Message
  message_of s from = record {
    sender = from;
    recipient = s.sink;
    amount = record { coin_denom = s.denom; coin_amount = 1 };
  }

  -- `CreateMsg`; an invalid denomination panics in the SDK.
  unfoldable pub create_msg : Strategy → List ℕ → Result BankFailure Message
  unfolding message_of
  create_msg s from =
      if not (valid_addr from)
      then err bad_sender
      else if not (sdk.valid_denom s.denom)
      then err invalid_denom
      else ok (message_of s from)

  unfoldable pub tx_with : Client → ℕ → Message → Tx
  tx_with c seq msg = record {
    messages = msg ∷ [];
    fee = record { coin_denom = c.strategy.denom; coin_amount = 25_000_000_000 * 200_000 };
    gas_limit = 200_000;
    chain = c.strategy.chain_id;
    number = c.account_num;
    sequence = seq;
  }

  unfoldable pub bytes_of : Option (List ℕ) → Result BankFailure (List ℕ)
  bytes_of none = err not_encoded
  bytes_of (some b) = ok b

  unfoldable pub encoded : Tx → Option (List ℕ) → Result BankFailure (List ℕ)
  unfolding bytes_of
  encoded tx none = err not_signed
  encoded tx (some s) = bytes_of (sdk.encode tx s)

  unfoldable pub signed_with : Client → ℕ → Message → Result BankFailure (List ℕ)
  unfolding tx_with encoded
  signed_with c seq msg =
      if not (sdk.set_messages (msg ∷ []))
      then err bad_message
      else encoded (tx_with c seq msg) (sdk.sign c.secret (tx_with c seq msg))

  unfoldable pub make_tx : Client → ℕ → Result BankFailure (List ℕ)
  unfolding create_msg signed_with
  make_tx c seq = create_msg c.strategy c.addr >>= signed_with c seq

  -- The sequence number is taken whether or not a transaction comes of it.
  unfoldable pub taken_tx :
      Client → Result BankFailure Client → Client × Result BankFailure (List ℕ)
  unfolding make_tx
  taken_tx c (err e) = (c, err e)
  taken_tx c (ok d) = (record d { sequence = (d.sequence + 1) % two64 }, make_tx d d.sequence)

  -- `GenerateTx`, with what a GET request returns meanwhile.
  unfoldable pub generate_tx : (List ℕ → Get) → Client → Client × Result BankFailure (List ℕ)
  unfolding ensure_queried taken_tx
  generate_tx get c = taken_tx c (ensure_queried get c)

  unfoldable pub generate_txs :
      List (List ℕ → Get) → Client → Client × List (Result BankFailure (List ℕ))
  unfolding generate_tx
  generate_txs [] c = (c, [])
  generate_txs (get ∷ gets) c =
      let first = generate_tx get c in
      let rest = generate_txs gets first.0 in (rest.0, first.1 ∷ rest.1)
