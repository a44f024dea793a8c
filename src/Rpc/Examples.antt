-- ===== src/Rpc/Examples.antt =====
-- The decoders at concrete inputs.
use perpx_load_test.Base.{◌≡◌, refl, [], ◌∷◌, arith, codes, ok, err}
use perpx_load_test.Rpc.{marshal_json, unmarshal_json, parse_uint, out_of_range}
use perpx_load_test.Rpc.Hex.{unmarshal_json-marshal_json}

channels : marshal_json (0x40 ∷ 0xfe ∷ []) ≡ codes "\"40FE\""
unfolding marshal_json
channels = refl

unmarshal_json-marshal_json_example :
    unmarshal_json (marshal_json (0x40 ∷ 0xfe ∷ [])) ≡ ok (0x40 ∷ 0xfe ∷ [])
unmarshal_json-marshal_json_example = unmarshal_json-marshal_json (0x40 ∷ 0xfe ∷ []) (omega arith)

too_large : parse_uint (codes "18446744073709551616") ≡ err out_of_range
unfolding parse_uint
too_large = refl
