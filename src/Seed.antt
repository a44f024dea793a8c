-- ===== src/Seed.antt =====
-- pkg/seed/seed.go: the configuration of the seeding, its command line, the key and the addresses.
-- Texts are lists of bytes; the environment is a function, empty where a variable is not set.
pub mod Funding
pub mod Delivery
pub mod Flags
pub mod Batches
pub mod Plan
pub mod Fees
pub mod Verified
pub mod Ends
pub mod Examples
use perpx_load_test.Base.{
  ℕ, suc, ◌-◌, Bool, true, false, ◌||◌, Option, none, some, List, [], ◌∷◌, ◌++◌, if◌then◌else◌,
  length, ◌==◌, not, codes, same, contains, replace_first, trim_prefix, Result, ok, err, ◌>>=◌,
}
use perpx_load_test.Base.Int.{ℤ, pos, negsuc, two63}
use perpx_load_test.Rpc.{RpcFailure, out_of_range, parse_int, decode_hex}

pub record Config : Type 0 where
  pub workers : ℤ
  pub seed_key : List ℕ
  pub seed_private_key : List ℕ
  pub rpc : List ℕ
  pub chain_id : List ℕ
  pub denom : List ℕ
  pub fund_amount : List ℕ
  pub batch_size : ℤ

-- What the seeding fails with; the last five are panics.
pub data SeedFailure : Type 0 where
  bad_fund_amount : SeedFailure
  key_not_hex : RpcFailure → SeedFailure
  key_length : ℕ → SeedFailure
  key_not_derived : SeedFailure
  not_a_mnemonic : List ℕ → SeedFailure
  balance_query : SeedFailure
  balance_status : ℕ → SeedFailure
  balance_body : SeedFailure
  bad_amount : List ℕ → SeedFailure
  insufficient_funds : ℕ → ℕ → SeedFailure
  account_query : SeedFailure
  account_status : ℕ → SeedFailure
  account_body : SeedFailure
  bad_number : RpcFailure → SeedFailure
  bad_messages : SeedFailure
  not_signed : SeedFailure
  not_encoded : SeedFailure
  no_connection : SeedFailure
  no_broadcast : SeedFailure
  refused : ℤ → SeedFailure
  failed_in_block : ℤ → SeedFailure
  not_included : SeedFailure
  not_all_funded : SeedFailure
  negative_coin : SeedFailure
  bad_denom : SeedFailure
  negative_length : SeedFailure
  bad_slice : SeedFailure
  divided_by_zero : SeedFailure

unfoldable pub get_env : (List ℕ → List ℕ) → List ℕ → List ℕ → List ℕ
get_env env key default = if same (env key) [] then default else env key

unfoldable pub default_config : (List ℕ → List ℕ) → Config
unfolding get_env
default_config env = record {
  workers = pos 10;
  seed_key = get_env env (codes "LOADTEST_SEED_KEY") (codes "alice");
  seed_private_key = get_env env (codes "LOADTEST_SEED_PRIVATE_KEY") [];
  rpc = get_env env (codes "LOADTEST_RPC") (codes "http://localhost:36657");
  chain_id = get_env env (codes "LOADTEST_CHAIN_ID") (codes "localperpxprotocol");
  denom = get_env env (codes "LOADTEST_DENOM") (codes "aperpx");
  fund_amount = get_env env (codes "LOADTEST_FUND_AMOUNT") (codes "1000000aperpx");
  batch_size = pos 50;
}

pub data Flag : Type 0 where
  workers_flag seed_key_flag private_key_flag rpc_flag chain_id_flag : Flag
  denom_flag fund_amount_flag batch_size_flag help_flag unknown_flag : Flag

unfoldable pub flag_of : List ℕ → Flag
flag_of a =
    if same a (codes "--workers") || same a (codes "-w")
    then workers_flag
    else if same a (codes "--seed-key") || same a (codes "-k")
    then seed_key_flag
    else if same a (codes "--seed-private-key")
        || same a (codes "--private-key")
        || same a (codes "-p")
    then private_key_flag
    else if same a (codes "--rpc") || same a (codes "-r")
    then rpc_flag
    else if same a (codes "--chain-id")
    then chain_id_flag
    else if same a (codes "--denom")
    then denom_flag
    else if same a (codes "--fund-amount")
    then fund_amount_flag
    else if same a (codes "--batch-size")
    then batch_size_flag
    else if same a (codes "--help") || same a (codes "-h")
    then help_flag
    else unknown_flag

-- The end of the range that a number out of it is cut to.
unfoldable pub range_end : List ℕ → ℤ
range_end [] = pos (two63 - 1)
range_end (c ∷ s) = if c == b'-' then negsuc (two63 - 1) else pos (two63 - 1)

unfoldable pub kept_value : List ℕ → Result RpcFailure ℤ → ℤ
unfolding range_end
kept_value s (ok z) = z
kept_value s (err out_of_range) = range_end s
kept_value s (err _) = pos 0

-- The first result of `strconv.Atoi`, whose error is dropped.
unfoldable pub atoi_value : List ℕ → ℤ
unfolding kept_value
atoi_value s = kept_value s (parse_int s)

unfoldable pub set_flag : Flag → List ℕ → Config → Config
unfolding atoi_value
set_flag workers_flag v c = record c { workers = atoi_value v }
set_flag seed_key_flag v c = record c { seed_key = v }
set_flag private_key_flag v c = record c { seed_private_key = v }
set_flag rpc_flag v c = record c { rpc = v }
set_flag chain_id_flag v c = record c { chain_id = v }
set_flag denom_flag v c = record c { denom = v }
set_flag fund_amount_flag v c = record c { fund_amount = v }
set_flag batch_size_flag v c = record c { batch_size = atoi_value v }
set_flag help_flag v c = c
set_flag unknown_flag v c = c

-- The loop over the arguments; none where the help is printed and the program exits.
unfoldable pub scan : List (List ℕ) → Config → Option Config
unfolding flag_of set_flag
scan [] c = some c
scan (a ∷ []) c = elim (flag_of a) [ help_flag ↦ none | _ ↦ some c ]
scan (a ∷ v ∷ rest) c = elim (flag_of a) [
  | help_flag ↦ none
  | unknown_flag ↦ scan (v ∷ rest) c
  | f ↦ scan rest (set_flag f v c)
]

unfoldable pub parse_args : (List ℕ → List ℕ) → List (List ℕ) → Option Config
unfolding default_config scan
parse_args env args = scan args (default_config env)

abbrev alice_mnemonic : List ℕ
alice_mnemonic =
    codes
      "merge panther lobster crazy road hollow amused security before critic about cliff exhibit cause coyote talent happy where lion river tobacco option coconut small"

unfoldable pub sized_key : List ℕ → Result SeedFailure (List ℕ)
sized_key bytes = if not (length bytes == 32) then err (key_length (length bytes)) else ok bytes

unfoldable pub hex_key : Result RpcFailure (List ℕ) → Result SeedFailure (List ℕ)
unfolding sized_key
hex_key (ok bytes) = sized_key bytes
hex_key (err e) = err (key_not_hex e)

unfoldable pub derived_key : Option (List ℕ) → Result SeedFailure (List ℕ)
derived_key none = err key_not_derived
derived_key (some k) = ok k

unfoldable pub mnemonic_key : (List ℕ → Option (List ℕ)) → List ℕ → Result SeedFailure (List ℕ)
unfolding derived_key
mnemonic_key derive words =
    if contains (codes " ") words then derived_key (derive words) else err (not_a_mnemonic words)

-- The secret of the account that funds the others. `derive` is the HD derivation of a mnemonic.
unfoldable pub seed_secret : (List ℕ → Option (List ℕ)) → Config → Result SeedFailure (List ℕ)
unfolding hex_key mnemonic_key
seed_secret derive c =
    if not (same c.seed_private_key [])
    then hex_key (decode_hex (trim_prefix (codes "0x") c.seed_private_key))
    else mnemonic_key derive
        (if same c.seed_key (codes "alice") then alice_mnemonic else c.seed_key)

-- The URL of another service of the node, by its ports for the two known ports of the RPC.
unfoldable pub service_url : List ℕ → List ℕ → List ℕ → List ℕ → List ℕ
service_url rpc port other default =
    let local = replace_first (codes ":36657") port rpc in
    let usual = replace_first (codes ":26657") other rpc in
    if contains port local then local else if contains other usual then usual else default

unfoldable pub rest_url : List ℕ → List ℕ
unfolding service_url
rest_url rpc = service_url rpc (codes ":31317") (codes ":1317") (codes "http://localhost:31317")

unfoldable pub grpc_addr : List ℕ → List ℕ
unfolding service_url
grpc_addr rpc =
    trim_prefix (codes "http://")
      (service_url rpc (codes ":39090") (codes ":9090") (codes "http://localhost:39090"))
