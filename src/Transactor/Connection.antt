-- ===== src/Transactor/Connection.antt =====
-- How a transactor is connected, what it writes and how it reads (`NewTransactor`,
-- `validateWebSocketURL`, `writeTx` and `receiveLoop` of pkg/loadtest/transactor.go). The URL parser,
-- the client factories and the dialler of the web socket library are parameters; texts are lists of
-- bytes.
use perpx_load_test.Base.{
  ℕ, ◌+◌, ◌*◌, ◌/◌, ◌%◌, ◌==◌, Bool, true, false, not, ◌||◌, ◌&&◌, Option, none, some, List, [],
  ◌∷◌, ◌++◌, if◌then◌else◌, leb, codes, same, Result, ok, err, ◌>>=◌, get_or,
}
use perpx_load_test.Base.Int.{negsuc}
use perpx_load_test.Config.{Config}
use perpx_load_test.Rpc.{RpcRequest}
use perpx_load_test.Transactor.{Transactor, new_transactor}

-- Why there is no connection.
pub data ConnectionError : Type 0 where
  control_characters : ConnectionError
  not_parsed : ConnectionError
  unsupported_scheme : List ℕ → ConnectionError
  missing_host : ConnectionError
  unrecognized_factory : ConnectionError
  no_client : ℕ → ConnectionError
  dial_failed : ℕ → ConnectionError
  bad_status : ℕ → ConnectionError

pub record Url : Type 0 where
  pub scheme : List ℕ
  pub host : List ℕ
  pub text : List ℕ

-- What the dialler returns: the status of the response, or its error.
pub data Dialled : Type 0 where
  refused : ℕ → Dialled
  responded : ℕ → Dialled

-- ContainsAny(s, "\r\n")
abbrev pub has_control : List ℕ → Bool
has_control [] = false
has_control (c ∷ s) = c == 13 || c == 10 || has_control s

unfoldable pub checked_url : Option Url → Result ConnectionError Url
checked_url none = err not_parsed
checked_url (some u) =
    if not (same u.scheme (codes "ws")) && not (same u.scheme (codes "wss"))
    then err (unsupported_scheme u.scheme)
    else if same u.host []
    then err missing_host
    else ok u

-- `validateWebSocketURL`.
unfoldable pub validate_websocket_url : (List ℕ → Option Url) → List ℕ → Result ConnectionError Url
unfolding checked_url
validate_websocket_url parse raw =
    if has_control raw then err control_characters else checked_url (parse raw)

-- The client: none where the factory is not registered, or the error of its `NewClient`.
unfoldable pub client_made : Option (Option ℕ) → Option ConnectionError
client_made none = some unrecognized_factory
client_made (some (some e)) = some (no_client e)
client_made (some none) = none

unfoldable pub connected_by : Dialled → Option ConnectionError
connected_by (refused e) = some (dial_failed e)
connected_by (responded status) = if leb 400 status then some (bad_status status) else none

unfoldable pub unless {ℓ} : {A : Type ℓ} → Option ConnectionError → A → Result ConnectionError A
unless none a = ok a
unless (some e) a = err e

-- `NewTransactor`, with the address that the transactor keeps.
unfoldable pub open_transactor :
    (List ℕ → Option Url)
    → (Config → Option (Option ℕ))
    → (List ℕ → Dialled)
    → List ℕ
    → Config
    → Result ConnectionError (List ℕ × Transactor)
unfolding validate_websocket_url client_made connected_by unless new_transactor
open_transactor parse clients dial raw c = validate_websocket_url parse raw >>= λ u.
    unless (client_made (clients c)) u >>= λ v.
    unless (connected_by (dial v.text)) (v.text, new_transactor c)

-- The alphabet of the standard encoding of `base64`.
abbrev pub base64_alphabet : List ℕ
base64_alphabet = codes "ABCDEFGHIJKLMNOPQRSTUVWXYZabcdefghijklmnopqrstuvwxyz0123456789+/"

abbrev pub base64_digit : ℕ → ℕ
base64_digit n = get_or base64_alphabet (n % 64) 0

-- `EncodeToString`, three bytes at a time, with padding.
unfoldable pub encode_base64 : List ℕ → List ℕ
encode_base64 [] = []
encode_base64 (a ∷ []) = base64_digit (a / 4) ∷ base64_digit (a % 4 * 16) ∷ b'=' ∷ b'=' ∷ []
encode_base64 (a ∷ b ∷ []) =
    base64_digit (a / 4)
    ∷ base64_digit (a % 4 * 16 + b / 16)
    ∷ base64_digit (b % 16 * 4)
    ∷ b'='
    ∷ []
encode_base64 (a ∷ b ∷ c ∷ rest) =
    base64_digit (a / 4)
    ∷ base64_digit (a % 4 * 16 + b / 16)
    ∷ base64_digit (b % 16 * 4 + c / 64)
    ∷ base64_digit c
    ∷ encode_base64 rest

-- The request that `writeTx` writes.
unfoldable pub tx_request : List ℕ → List ℕ → RpcRequest
unfolding encode_base64
tx_request method tx = record {
  json_rpc = codes "2.0";
  request_id = negsuc 0;
  method = codes "broadcast_tx_" ++ method;
  params = codes "{\"tx\":\"" ++ encode_base64 tx ++ codes "\"}";
}

-- What `ReadMessage` returns, and what the stop flag is after it.
pub data Reading : Type 0 where
  message : Bool → Reading
  closed_normally : Bool → Reading
  read_failed : Reading

-- `receiveLoop`: whether it has returned.
unfoldable pub receive_loop : List Reading → Bool
receive_loop [] = false
receive_loop (read_failed ∷ rs) = true
receive_loop (message stop ∷ rs) = let later = receive_loop rs in if stop then true else later
receive_loop (closed_normally stop ∷ rs) =
    let later = receive_loop rs in if stop then true else later
