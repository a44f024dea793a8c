-- ===== src/Kvstore.antt =====
-- pkg/loadtest/client_kvstore.go and pkg/loadtest/rand.go: the built-in client that sends random
-- key=value transactions. Texts are lists of bytes. What `crypto/rand` fills a buffer with is an
-- argument of each call.
pub mod Suffix
pub mod Size
pub mod Examples
use perpx_load_test.Base.{
  codes, ℕ, suc, ◌+◌, ◌%◌, Bool, Option, none, some, List, [], ◌∷◌, ◌++◌, if◌then◌else◌, ltb, ◌==◌,
  length, get_or, get_elem?, map, Result, ok, err, ◌>>=◌,
}
use perpx_load_test.Base.Int.{ℤ, pos, negsuc, ltb_ℤ, leb_ℤ, sub_int64}
use perpx_load_test.Config.{
  Config, ClientFactory, FactoryError, no_tx_estimate, too_many_txs, suffix_too_long,
  size_too_small, max_txs_per_endpoint,
}

abbrev pub client_id_len : ℕ
client_id_len = 5

abbrev pub min_value_len : ℕ
min_value_len = 1

-- `kvstoreMaxTxsByKeySuffixLen`.
abbrev pub max_txs_by_suffix_len : List ℕ
max_txs_by_suffix_len =
    0 ∷ 62 ∷ 1891 ∷ 37820 ∷ 557845 ∷ 6471002 ∷ 61474519 ∷ 491796152 ∷ 3381098545 ∷ 20286591270
    ∷ 107518933731 ∷ 508271323092 ∷ 2160153123141 ∷ 8308281242850 ∷ 29078984349975 ∷ 93052749919920
    ∷ []

-- The loop of `requiredKVStoreSuffixLen` from index `l` on.
suffix_loop : ℕ → ℕ → List ℕ → Result FactoryError ℕ
suffix_loop n l [] = err (too_many_txs n)
suffix_loop n l (max_txs ∷ rest) =
    let next = suffix_loop n (l + 1) rest in
    if ltb n max_txs
    then (if ltb (length max_txs_by_suffix_len) (l + 1)
        then err (suffix_too_long n (l + 1))
        else ok (l + 1))
    else next

unfoldable pub required_suffix_len : ℕ → Result FactoryError ℕ
unfolding suffix_loop
required_suffix_len n = suffix_loop n 0 max_txs_by_suffix_len

-- `KVStoreClientFactory.ValidateConfig` once the suffix length is known.
check_size : Config → Result FactoryError ℕ → Option FactoryError
check_size c (err e) = some e
check_size c (ok min_suffix) =
    let min_tx_size = pos (client_id_len + min_suffix + 1 + min_value_len) in
    if ltb_ℤ c.size min_tx_size then some (size_too_small c.size min_tx_size) else none

unfoldable pub validate_config : Config → Option FactoryError
unfolding check_size
validate_config c =
    if ltb (max_txs_per_endpoint c) 1
    then some (no_tx_estimate (max_txs_per_endpoint c))
    else check_size c (required_suffix_len (max_txs_per_endpoint c))

abbrev pub kvstore_factory : ClientFactory
kvstore_factory = record { validate_config = validate_config }

pub record Client : Type 0 where
  pub key_prefix : List ℕ
  pub key_suffix_len : ℤ
  pub value_len : ℤ

-- The outcome of `rand.Read` on a buffer: how many bytes it filled, and the buffer.
pub data Read : Type 0 where
  read_failed : Read
  read : ℕ → List ℕ → Read

abbrev pub str_chars : List ℕ
str_chars = codes "0123456789ABCDEFGHIJKLMNOPQRSTUVWXYZabcdefghijklmnopqrstuvwxyz"

str_char : ℕ → ℕ
str_char b = get_or str_chars (b % length str_chars) 0

fill : ℤ → Read → Option (List ℕ)
fill n read_failed = none
fill (negsuc n) (read k bytes) = none
fill (pos n) (read k bytes) = if k == n then some (map str_char bytes) else none

-- `randStr`; `none` is a panic.
unfoldable pub rand_str : ℤ → Read → Option (List ℕ)
unfolding fill str_char
rand_str n r = if leb_ℤ n (pos 0) then some [] else fill n r

-- `NewClient` once the prefix is drawn and the suffix length is known.
make_client : Config → List ℕ → ℕ → Client
make_client c prefix suffix_len =
    let key_len = length prefix + suffix_len in
    record {
      key_prefix = prefix;
      key_suffix_len = pos suffix_len;
      value_len = sub_int64 (sub_int64 c.size (pos key_len)) (pos 1);
    }

with_suffix_len : Config → List ℕ → Result FactoryError ℕ → Result FactoryError Client
unfolding make_client
with_suffix_len c prefix (err e) = err e
with_suffix_len c prefix (ok n) = ok (make_client c prefix n)

-- `KVStoreClientFactory.NewClient`; `none` is a panic.
unfoldable pub new_client : Config → Read → Option (Result FactoryError Client)
unfolding with_suffix_len rand_str
new_client c r = elim (rand_str (pos client_id_len) r) [
  | none ↦ none
  | some prefix ↦ some (with_suffix_len c prefix (required_suffix_len (max_txs_per_endpoint c)))
]

-- `KVStoreClient.GenerateTx`, with the two draws of random bytes; `none` is a panic.
unfoldable pub generate_tx : Client → Read → Read → Option (List ℕ)
unfolding rand_str
generate_tx cl r1 r2 = elim (rand_str cl.key_suffix_len r1) [
  | none ↦ none
  | some suffix ↦ elim (rand_str cl.value_len r2) [
    | none ↦ none
    | some value ↦ some ((cl.key_prefix ++ suffix) ++ (b'=' ∷ value))
  ]
]
