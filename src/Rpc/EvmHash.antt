-- ===== src/Rpc/EvmHash.antt =====
-- `GetEvmHash` and `decodeStringIfSmall` of zk-bridge/pkg/rpc/cosmos.go.
pub mod Laws
pub mod Encoded
use zk_cosmos_eth_bridge.Common.{
  ℕ, ◌+◌, ◌%◌, Bool, true, false, ◌&&◌, ◌||◌, not, Option, none, some, List, [], ◌∷◌, ◌++◌, map,
  leb, ltb, ◌==◌, if◌then◌else◌, Bytes, codes, text_eq, has_prefix, length,
}
use zk_cosmos_eth_bridge.Codec.Hex.{in_range}
use zk_cosmos_eth_bridge.Codec.Base64.{base64_decode}
use zk_cosmos_eth_bridge.Rpc.Types.{Attribute, Event, TxResponse}

-- The runes of a text all lie in 32..126 exactly when its bytes do: a byte from 128 on is read as
-- part of a rune above 126, or as U+FFFD.
unfoldable pub is_printable : Bytes → Bool
is_printable [] = true
is_printable (c ∷ s) = not (ltb c 32 || ltb 126 c) && is_printable s

unfoldable pub decode_string_if_small : Bytes → Bytes
unfolding is_printable
decode_string_if_small s =
    if text_eq s [] || not (length s % 4 == 0) then s else elim (base64_decode s) [
      | none ↦ s
      | some decoded ↦ if is_printable decoded then decoded else s
    ]

-- `strings.ToLower` on ASCII. Beyond ASCII only U+0130 and U+212A become ASCII letters, `i` and `k`,
-- which stand in none of the words that the result is compared with.
abbrev pub to_lower : Bytes → Bytes
to_lower = map (λ c. if in_range b'A' b'Z' c then c + 32 else c)

unfoldable pub is_evm_type : Bytes → Bool
is_evm_type t =
    text_eq t (codes "ethereum_tx") || (text_eq t (codes "ethereum-tx") || text_eq t (codes "evm"))

unfoldable pub is_hash_key : Bytes → Bool
is_hash_key k =
    text_eq k (codes "ethereumtxhash")
    || (text_eq k (codes "txhash") || text_eq k (codes "eth_tx_hash"))

-- What the loop over the attributes does with a decoded key and value.
unfoldable pub hash_of : Bytes → Bytes → Option Bytes
hash_of key val =
    if is_hash_key (to_lower key) && leb 64 (length val)
    then some (if has_prefix val (codes "0x") then val else codes "0x" ++ val)
    else none

-- The body of the loop over the attributes: the hash that it returns, if it returns there.
unfoldable pub attribute_hash : Attribute → Option Bytes
attribute_hash attr = hash_of (decode_string_if_small attr.key) (decode_string_if_small attr.value)

unfoldable pub scan_attributes : List Attribute → Option Bytes
scan_attributes [] = none
scan_attributes (attr ∷ attrs) = elim (attribute_hash attr) [
  | some val ↦ some val
  | none ↦ scan_attributes attrs
]

unfoldable pub scan_events : List Event → Option Bytes
scan_events [] = none
scan_events (event ∷ events) = elim (is_evm_type (to_lower (decode_string_if_small event.type))) [
  | true ↦ elim (scan_attributes event.attributes) [
    | some val ↦ some val
    | none ↦ scan_events events
  ]
  | false ↦ scan_events events
]

abbrev pub all_events : TxResponse → List Event
all_events r = r.events ++ (r.result.events ++ r.result.tx_result.events)

abbrev pub or_empty : Option Bytes → Bytes
or_empty none = []
or_empty (some val) = val

-- The empty text stands for "no hash".
unfoldable pub get_evm_hash : TxResponse → Bytes
get_evm_hash r = or_empty (scan_events (all_events r))
