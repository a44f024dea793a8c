-- ===== src/Rpc.antt =====
-- pkg/loadtest/rpc.go: the types of the node's answers, the decoders that the program writes for
-- them, and the query `net_info`. The JSON decoders of the standard library are parameters; texts are
-- lists of bytes.
pub mod Hex
pub mod Numbers
pub mod Printing
pub mod Examples
use perpx_load_test.Base.{
  ℕ, zero, suc, ◌+◌, ◌-◌, ◌*◌, ◌/◌, ◌%◌, Bool, true, false, not, ◌&&◌, ◌||◌, Option, none, some,
  List, [], ◌∷◌, ◌++◌, map, if◌then◌else◌, ltb, leb, ◌==◌, Result, ok, err, ◌>>=◌, trim_right,
  codes, is_some,
}
use perpx_load_test.Base.Int.{ℤ, pos, negsuc, eqb_ℤ, two63, two64}

-- What a decoder or a query of this file can fail with.
pub data RpcFailure : Type 0 where
  no_quotes : RpcFailure
  bad_byte : ℕ → RpcFailure
  odd_length : RpcFailure
  not_a_string : RpcFailure
  bad_syntax : RpcFailure
  out_of_range : RpcFailure
  get_failed : ℕ → RpcFailure
  body_failed : ℕ → RpcFailure
  bad_response : RpcFailure
  error_code : ℤ → List ℕ → RpcFailure
  bad_result : RpcFailure

-- The digits of `hex.EncodeToString`.
unfoldable pub hex_digit : ℕ → ℕ
hex_digit n = if ltb n 10 then n + b'0' else n - 10 + b'a'

unfoldable pub encode_hex : List ℕ → List ℕ
unfolding hex_digit
encode_hex [] = []
encode_hex (b ∷ bz) = hex_digit (b / 16) ∷ hex_digit (b % 16) ∷ encode_hex bz

-- `strings.ToUpper` on an ASCII byte.
unfoldable pub to_upper : ℕ → ℕ
to_upper c = if leb b'a' c && leb c b'z' then c - 32 else c

-- `HexBytes.MarshalJSON`.
unfoldable pub marshal_json : List ℕ → List ℕ
unfolding encode_hex to_upper
marshal_json bz = b'"' ∷ (map to_upper (encode_hex bz) ++ (b'"' ∷ []))

unfoldable pub hex_value : ℕ → Option ℕ
hex_value c =
    if leb b'0' c && leb c b'9'
    then some (c - b'0')
    else if leb b'a' c && leb c b'f'
    then some (c - b'a' + 10)
    else if leb b'A' c && leb c b'F'
    then some (c - b'A' + 10)
    else none

-- The byte of two digits, or the error of the first that is none.
unfoldable pub byte_of : ℕ → ℕ → Option ℕ → Option ℕ → Result RpcFailure ℕ
byte_of c d none w = err (bad_byte c)
byte_of c d (some v) none = err (bad_byte d)
byte_of c d (some v) (some w) = ok (v * 16 + w)

-- `hex.DecodeString`.
unfoldable pub decode_hex : List ℕ → Result RpcFailure (List ℕ)
unfolding hex_value byte_of
decode_hex [] = ok []
decode_hex (c ∷ []) = if is_some (hex_value c) then err odd_length else err (bad_byte c)
decode_hex (c ∷ d ∷ s) =
    byte_of c d (hex_value c) (hex_value d) >>= λ b. decode_hex s >>= λ bz. ok (b ∷ bz)

-- All but the last byte, and the last.
unfoldable pub unsnoc : ℕ → List ℕ → List ℕ × ℕ
unsnoc x [] = ([], x)
unsnoc x (y ∷ s) = let (front, last) = unsnoc y s in (x ∷ front, last)

-- `HexBytes.UnmarshalJSON`.
unfoldable pub unmarshal_json : List ℕ → Result RpcFailure (List ℕ)
unfolding decode_hex unsnoc
unmarshal_json [] = err no_quotes
unmarshal_json (q ∷ []) = err no_quotes
unmarshal_json (q ∷ x ∷ s) =
    let (inner, r) = unsnoc x s in
    if not (q == b'"') || not (r == b'"') then err no_quotes else decode_hex inner

abbrev pub is_digit : ℕ → Bool
is_digit c = leb b'0' c && leb c b'9'

-- The loop of `strconv.ParseUint(s, 10, 64)`, with the value so far.
unfoldable pub parse_digits : ℕ → List ℕ → Result RpcFailure ℕ
parse_digits n [] = ok n
parse_digits n (c ∷ s) =
    let n' = n * 10 + (c - b'0') in
    let rest = parse_digits n' s in
    if is_digit c then (if leb two64 n' then err out_of_range else rest) else err bad_syntax

unfoldable pub parse_uint : List ℕ → Result RpcFailure ℕ
unfolding parse_digits
parse_uint [] = err bad_syntax
parse_uint (c ∷ s) = parse_digits 0 (c ∷ s)

-- The range of an `int64`, in `strconv.ParseInt` and in `strconv.Atoi` of 64 bits.
unfoldable pub with_sign : Bool → ℕ → Result RpcFailure ℤ
with_sign true zero = ok (pos 0)
with_sign true (suc n) = if ltb n two63 then ok (negsuc n) else err out_of_range
with_sign false n = if ltb n two63 then ok (pos n) else err out_of_range

unfoldable pub parse_int : List ℕ → Result RpcFailure ℤ
unfolding parse_uint with_sign
parse_int [] = err bad_syntax
parse_int (c ∷ s) =
    if c == b'-'
    then (parse_uint s >>= with_sign true)
    else if c == b'+'
    then (parse_uint s >>= with_sign false)
    else (parse_uint (c ∷ s) >>= with_sign false)

-- The `UnmarshalJSON` of the numbers that are strings in JSON; `json_string` decodes a JSON string.
module _ (json_string : List ℕ → Option (List ℕ)) where
  unfoldable pub string_of : Option (List ℕ) → Result RpcFailure (List ℕ)
  string_of none = err not_a_string
  string_of (some s) = ok s

  unfoldable pub unmarshal_int : List ℕ → Result RpcFailure ℤ
  unfolding string_of parse_int
  unmarshal_int json = string_of (json_string json) >>= parse_int

  unfoldable pub unmarshal_int64 : List ℕ → Result RpcFailure ℤ
  unfolding string_of parse_int
  unmarshal_int64 json = string_of (json_string json) >>= parse_int

  unfoldable pub unmarshal_duration : List ℕ → Result RpcFailure ℤ
  unfolding unmarshal_int64
  unmarshal_duration json = unmarshal_int64 json

  unfoldable pub unmarshal_uint64 : List ℕ → Result RpcFailure ℕ
  unfolding string_of parse_uint
  unmarshal_uint64 json = string_of (json_string json) >>= parse_uint

-- The structs; a time is a number of nanoseconds.
pub record RpcError : Type 0 where
  pub code : ℤ
  pub message : List ℕ
  pub details : List ℕ

pub record RpcRequest : Type 0 where
  pub json_rpc : List ℕ
  pub request_id : ℤ
  pub method : List ℕ
  pub params : List ℕ

pub record RpcResponse : Type 0 where
  pub json_rpc : List ℕ
  pub response_id : ℤ
  pub result : List ℕ
  pub error : Option RpcError

pub record ProtocolVersion : Type 0 where
  pub p2p : ℕ
  pub block : ℕ
  pub app : ℕ

pub record DefaultNodeInfoOther : Type 0 where
  pub tx_index : List ℕ
  pub rpc_address : List ℕ

pub record DefaultNodeInfo : Type 0 where
  pub protocol_version : ProtocolVersion
  pub default_node_id : List ℕ
  pub listen_addr : List ℕ
  pub network : List ℕ
  pub version : List ℕ
  pub channels : List ℕ
  pub moniker : List ℕ
  pub other : DefaultNodeInfoOther

pub record FlowStatus : Type 0 where
  pub start : ℤ
  pub bytes : ℤ
  pub samples : ℤ
  pub inst_rate : ℤ
  pub cur_rate : ℤ
  pub avg_rate : ℤ
  pub peak_rate : ℤ
  pub bytes_rem : ℤ
  pub duration : ℤ
  pub idle : ℤ
  pub time_rem : ℤ
  pub progress : ℕ
  pub active : Bool

pub record ChannelStatus : Type 0 where
  pub channel_id : ℕ
  pub send_queue_capacity : ℤ
  pub send_queue_size : ℤ
  pub priority : ℤ
  pub recently_sent : ℤ

pub record ConnectionStatus : Type 0 where
  pub duration : ℤ
  pub send_monitor : FlowStatus
  pub recv_monitor : FlowStatus
  pub channels : List ChannelStatus

pub record Peer : Type 0 where
  pub node_info : DefaultNodeInfo
  pub is_outbound : Bool
  pub connection_status : ConnectionStatus
  pub remote_ip : List ℕ

pub record NetInfo : Type 0 where
  pub listening : Bool
  pub listeners : List (List ℕ)
  pub n_peers : ℤ
  pub peers : List Peer

-- The `addr` of `newHttpRpcClient`.
unfoldable pub client_addr : List ℕ → List ℕ
client_addr addr = trim_right b'/' addr

-- `netInfo`, by what the `Get` and the reading of the body return.
module _ (parse_response : List ℕ → Option RpcResponse)
    (parse_net_info : List ℕ → Option NetInfo) where
  unfoldable pub taken_result : Option NetInfo → Result RpcFailure NetInfo
  taken_result none = err bad_result
  taken_result (some i) = ok i

  unfoldable pub taken_error : Option RpcError → List ℕ → Result RpcFailure NetInfo
  unfolding taken_result
  taken_error none r = taken_result (parse_net_info r)
  taken_error (some e) r =
      if not (eqb_ℤ e.code (pos 0))
      then err (error_code e.code e.message)
      else taken_result (parse_net_info r)

  unfoldable pub taken_response : Option RpcResponse → Result RpcFailure NetInfo
  unfolding taken_error
  taken_response none = err bad_response
  taken_response (some res) = taken_error res.error res.result

  -- The address that is asked, and what comes of the answer.
  unfoldable pub net_info :
      (List ℕ → Result RpcFailure (Result RpcFailure (List ℕ))) → List ℕ → Result RpcFailure NetInfo
  unfolding taken_response
  net_info get addr = get (addr ++ codes "/net_info") >>= λ body.
      body >>= λ bytes. taken_response (parse_response bytes)
