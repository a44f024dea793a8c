-- ===== src/Seed/Examples.antt =====
-- Runs of pkg/seed/seed.go with a node that answers by the URL.
use perpx_load_test.Base.{
  inl, inr, ℕ, ◌*◌, ◌≡◌, ◌≢◌, refl, true, Option, none, some, List, [], ◌∷◌, if◌then◌else◌, length,
  map, codes, contains, Result, ok, err, arith,
}
use perpx_load_test.Base.Int.{ℤ, pos, wrap64, to_uint64, from_pattern, ◌+ℤ◌}
use perpx_load_test.Rpc.{RpcFailure, parse_digits, parse_uint, with_sign, parse_int}
use perpx_load_test.Base.Decimal.{digits_onto, decimal, decimal_int}
use perpx_load_test.Seed.{
  Config, default_config, divided_by_zero, parse_args, hex_key, derived_key, mnemonic_key,
  seed_secret, service_url, rest_url, grpc_addr,
}
use perpx_load_test.Seed.Funding.{
  scale, balances_url, new_coin, total_required, add_balance, seed_balance, account_balance,
  taken_balance, number_of, taken_account, bench_addr, bench_from, bench_addrs, is_low, low_ones,
  parsed_coin, enough, checked, plan_for, listed, with_account, with_secret, with_total, with_coin,
  plan, Get, unreachable, response, Sdk, Node, Plan, bench_addr,
}
use perpx_load_test.Seed.Delivery.{
  finished, failed, no_fuel, cons_tx, message_to, gas_for, batch_of, after_batch, next_sequence,
  tx_for, signed, dialled, sealed, fee_for, prepare, has_height, status_in, block_failure, await,
  answered, deliver, sent_with, fund_with, fund_from, verified, verify_after, fund_needs,
  fund_planned, seed_planned, seed_accounts, is_panic, exit_code,
}
use perpx_load_test.Seed.Batches.{recipients}
use perpx_load_test.Seed.Verified.{IsSeeded, seed_accounts-IsSeeded}
use perpx_load_test.Seed.Ends.{seed_accounts_ends}
use perpx_load_test.Seed.Flags.{
  Setting, workers_are, private_key_is, denom_is, written, asked_for, parse_args-written,
}
use perpx_load_test.Seed.Fees.{total_fees, fees_underestimated}

abbrev kept : Result RpcFailure ℤ → Option ℤ
kept (ok z) = some z
kept (err e) = none

-- Keys that are their own addresses, and bodies that are a single number.
abbrev pub plain_sdk : Sdk
plain_sdk = record {
  parse_coin = λ s. some (record { coin_denom = codes "aperpx"; coin_amount = 5 });
  valid_denom = λ d. true;
  new_int = λ s. kept (parse_int s);
  derive = λ s. some s;
  sha256 = λ s. s;
  address = λ s. s;
  set_messages = λ ms. true;
  sign = λ k t. some k;
  encode = λ t s. some s;
  decode_balances = λ b. some ((codes "aperpx", b) ∷ []);
  decode_account = λ b. some (b, b);
  decode_status = λ b. some (record { height = b; code = pos 0 });
}

-- The second worker has enough; the first one's account is unknown.
abbrev asked_before : List ℕ → Get
asked_before url =
    if contains (codes "/accounts/") url
    then response 200 (codes "7")
    else if contains (codes "bench worker 0") url
    then response 404 []
    else if contains (codes "bench worker 1") url
    then response 200 (codes "5")
    else if contains (codes "bench worker") url
    then response 200 (codes "4")
    else response 200 (codes "90000")

abbrev pub steady_node : Node
steady_node = record {
  before = asked_before;
  after = λ url. response 200 (codes "6");
  dial = λ addr. true;
  broadcast = λ round bytes. some (pos 0, codes "a1");
  polls = λ round url. unreachable ∷ response 404 [] ∷ response 200 (codes "12") ∷ [];
}

abbrev pub four_workers : Config
four_workers = record {
  workers = pos 4;
  seed_key = codes "one two three";
  seed_private_key = [];
  rpc = codes "http://localhost:36657";
  chain_id = codes "localperpxprotocol";
  denom = codes "aperpx";
  fund_amount = codes "5aperpx";
  batch_size = pos 2;
}

abbrev made_plan : Plan
made_plan = record {
  secret = codes "one two three";
  coin = record { coin_denom = codes "aperpx"; coin_amount = 5 };
  account = (7, 7);
  needs =
      bench_addr plain_sdk steady_node four_workers 0
      ∷ bench_addr plain_sdk steady_node four_workers 2
      ∷ bench_addr plain_sdk steady_node four_workers 3
      ∷ [];
}

made_test : plan plain_sdk steady_node four_workers ≡ ok made_plan
unfolding parse_digits parse_uint with_sign parse_int digits_onto decimal decimal_int wrap64
    to_uint64 from_pattern ◌+ℤ◌ hex_key derived_key mnemonic_key seed_secret service_url rest_url
    grpc_addr scale balances_url new_coin total_required add_balance seed_balance account_balance
    taken_balance number_of taken_account bench_addr bench_from bench_addrs is_low low_ones
    parsed_coin enough checked plan_for listed with_account with_secret with_total with_coin plan
    cons_tx message_to gas_for batch_of after_batch next_sequence tx_for signed dialled sealed
    fee_for prepare has_height status_in block_failure await answered deliver sent_with fund_with
    fund_from verified verify_after fund_needs fund_planned seed_planned seed_accounts is_panic
    exit_code
made_test = refl

finished_test : (seed_accounts plain_sdk steady_node four_workers).ending ≡ finished
unfolding parse_digits parse_uint with_sign parse_int digits_onto decimal decimal_int wrap64
    to_uint64 from_pattern ◌+ℤ◌ hex_key derived_key mnemonic_key seed_secret service_url rest_url
    grpc_addr scale balances_url new_coin total_required add_balance seed_balance account_balance
    taken_balance number_of taken_account bench_addr bench_from bench_addrs is_low low_ones
    parsed_coin enough checked plan_for listed with_account with_secret with_total with_coin plan
    cons_tx message_to gas_for batch_of after_batch next_sequence tx_for signed dialled sealed
    fee_for prepare has_height status_in block_failure await answered deliver sent_with fund_with
    fund_from verified verify_after fund_needs fund_planned seed_planned seed_accounts is_panic
    exit_code
finished_test = refl

sequences_test :
    map (λ t. t.sequence) (seed_accounts plain_sdk steady_node four_workers).txs ≡ 7 ∷ 8 ∷ []
unfolding parse_digits parse_uint with_sign parse_int digits_onto decimal decimal_int wrap64
    to_uint64 from_pattern ◌+ℤ◌ hex_key derived_key mnemonic_key seed_secret service_url rest_url
    grpc_addr scale balances_url new_coin total_required add_balance seed_balance account_balance
    taken_balance number_of taken_account bench_addr bench_from bench_addrs is_low low_ones
    parsed_coin enough checked plan_for listed with_account with_secret with_total with_coin plan
    cons_tx message_to gas_for batch_of after_batch next_sequence tx_for signed dialled sealed
    fee_for prepare has_height status_in block_failure await answered deliver sent_with fund_with
    fund_from verified verify_after fund_needs fund_planned seed_planned seed_accounts is_panic
    exit_code
sequences_test = refl

-- A batch size of zero ends in a division by zero after the first broadcast.
zero_batch_test :
    (seed_accounts plain_sdk steady_node (record four_workers { batch_size = pos 0 })).ending
    ≡ failed divided_by_zero
unfolding parse_digits parse_uint with_sign parse_int digits_onto decimal decimal_int wrap64
    to_uint64 from_pattern ◌+ℤ◌ hex_key derived_key mnemonic_key seed_secret service_url rest_url
    grpc_addr scale balances_url new_coin total_required add_balance seed_balance account_balance
    taken_balance number_of taken_account bench_addr bench_from bench_addrs is_low low_ones
    parsed_coin enough checked plan_for listed with_account with_secret with_total with_coin plan
    cons_tx message_to gas_for batch_of after_batch next_sequence tx_for signed dialled sealed
    fee_for prepare has_height status_in block_failure await answered deliver sent_with fund_with
    fund_from verified verify_after fund_needs fund_planned seed_planned seed_accounts is_panic
    exit_code
zero_batch_test = refl

seed_accounts-IsSeeded_example : (p : Plan) × IsSeeded plain_sdk steady_node four_workers p
seed_accounts-IsSeeded_example =
    seed_accounts-IsSeeded plain_sdk steady_node four_workers finished_test

seed_accounts_ends_example :
    (seed_accounts plain_sdk steady_node (record four_workers { batch_size = pos 0 })).ending
    ≢ no_fuel
seed_accounts_ends_example =
    seed_accounts_ends plain_sdk steady_node (record four_workers { batch_size = pos 0 })

fees_underestimated_example :
    (total_required plain_sdk steady_node four_workers made_plan.coin ≡ ok 40_020)
    × (total_fees (seed_accounts plain_sdk steady_node four_workers).txs
        ≡ 2_500_000_000_000_000
          * length (recipients (seed_accounts plain_sdk steady_node four_workers).txs))
fees_underestimated_example =
    fees_underestimated plain_sdk steady_node four_workers made_plan 2 4 made_test refl
      (omega arith) refl (omega arith)

-- Two options in short spellings, and one whose value looks like another option.
abbrev some_settings : List (List ℕ × Setting)
some_settings =
    (codes "-p", private_key_is (codes "0x12"))
    ∷ (codes "-w", workers_are (pos 7))
    ∷ (codes "--denom", denom_is (codes "--help"))
    ∷ (codes "--workers", workers_are (pos 4))
    ∷ []

parse_args-written_example :
    parse_args (λ key. codes "x") (written some_settings)
    ≡ some (asked_for some_settings (default_config (λ key. codes "x")))
parse_args-written_example =
    parse_args-written (λ key. codes "x") some_settings
      (
        (inr (inr (inl refl)), tt),
        ((inr (inl refl), omega arith), ((inl refl, tt), ((inl refl, omega arith), tt))),
      )
