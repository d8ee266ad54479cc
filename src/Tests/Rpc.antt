-- ===== src/Tests/Rpc.antt =====
-- Hashes and events of small responses.
use zk_cosmos_eth_bridge.Common.{
  ◌≡◌, ◌≢◌, refl, true, none, some, replicate, [], ◌∷◌, ◌++◌, arith, Bytes, codes, strip_prefix,
  All, IsByte, ok, err,
}
use zk_cosmos_eth_bridge.Codec.Hex.{hex_encode, hex_decode}
use zk_cosmos_eth_bridge.Codec.Base64.{base64_encode, base64_decode}
use zk_cosmos_eth_bridge.Rpc.Types.{Attribute, Event, TxResponse}
use zk_cosmos_eth_bridge.Rpc.Hash.{invalid_hash_format, decode_trimmed, decode_hash}
use zk_cosmos_eth_bridge.Rpc.Hash.Laws.{decode_hash-encoded}
use zk_cosmos_eth_bridge.Rpc.EvmHash.{
  is_printable, decode_string_if_small, scan_events, scan_attributes, attribute_hash, hash_of,
  is_evm_type, is_hash_key, get_evm_hash,
}
use zk_cosmos_eth_bridge.Rpc.EvmHash.Encoded.{
  IsPlain, IsPlainEvent, encode_response, get_evm_hash-encode_response,
}
use zk_cosmos_eth_bridge.Tests.Data.{leaf, leaf_hex}
use zk_cosmos_eth_bridge.Tests.Prover.{response}

leaf_bytes : All IsByte leaf
leaf_bytes = ground arith

-- The first byte is 211 and the second begins with the bits 0001, so that the text starts with `0x`.
abbrev odd_hash : Bytes
odd_hash = 211 ∷ 31 ∷ replicate 30 0

odd_bytes : All IsByte odd_hash
odd_bytes = ground arith

decode_hash-odd_hash :
    decode_hash (base64_encode odd_hash)
    ≡ err (invalid_hash_format (codes "8AAAAAAAAAAAAAAAAAAAAAAAAAAAAAAAAAAAAAAAA="))
unfolding decode_hash decode_trimmed hex_decode base64_decode base64_encode
decode_hash-odd_hash = refl

decode_hash-encoded_example :
    (decode_hash (hex_encode odd_hash) ≡ ok odd_hash)
    × (decode_hash (codes "0x" ++ hex_encode odd_hash) ≡ ok odd_hash)
    × (decode_hash (base64_encode odd_hash)
        ≡ elim (strip_prefix (codes "0x") (base64_encode odd_hash)) [
          | none ↦ ok odd_hash
          | some s ↦ err (invalid_hash_format s)
        ])
decode_hash-encoded_example = decode_hash-encoded odd_hash odd_bytes refl

decode_hash-leaf_hex : decode_hash leaf_hex ≡ ok leaf
unfolding decode_hash decode_trimmed hex_decode base64_decode
decode_hash-leaf_hex = refl

type_nonempty : codes "ethereum_tx" ≢ []
type_nonempty = λ e. ground (arith, e)

type_printable : is_printable (codes "ethereum_tx") ≡ true
unfolding is_printable
type_printable = refl

-- A response with an EVM event.
abbrev pub attribute : Attribute
attribute = record {
  key = codes "ethereumTxHash";
  value = codes "0x0000000000000000000000000000000000000000000000000000000000000005";
}

abbrev pub evm_event : Event
evm_event = record { type = codes "ethereum_tx"; attributes = attribute ∷ [] }

abbrev with_event : TxResponse
with_event = record (response [] [] []) { events = evm_event ∷ [] }

get_evm_hash-with_event :
    get_evm_hash with_event
    ≡ codes "0x0000000000000000000000000000000000000000000000000000000000000005"
unfolding get_evm_hash scan_events scan_attributes attribute_hash hash_of is_evm_type is_hash_key
    decode_string_if_small base64_decode
get_evm_hash-with_event = refl

type-IsPlain : IsPlain evm_event.type
unfolding decode_string_if_small base64_decode is_printable
type-IsPlain = record { nonempty = λ e. ground (arith, e); printable = refl; kept = refl }

key-IsPlain : IsPlain attribute.key
unfolding decode_string_if_small base64_decode is_printable
key-IsPlain = record { nonempty = λ e. ground (arith, e); printable = refl; kept = refl }

value-IsPlain : IsPlain attribute.value
unfolding decode_string_if_small base64_decode is_printable
value-IsPlain = record { nonempty = λ e. ground (arith, e); printable = refl; kept = refl }

event_plain : IsPlainEvent evm_event
event_plain = record {
  type = type-IsPlain;
  attributes = (record { key = key-IsPlain; value = value-IsPlain }, tt);
}

get_evm_hash-encode_response_example :
    get_evm_hash (encode_response with_event) ≡ get_evm_hash with_event
get_evm_hash-encode_response_example = get_evm_hash-encode_response with_event (event_plain, tt)
