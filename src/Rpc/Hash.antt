-- ===== src/Rpc/Hash.antt =====
-- `DecodeHash` of zk-bridge/pkg/rpc/cosmos.go.
pub mod Laws
use zk_cosmos_eth_bridge.Common.{
  Option, none, some, Bytes, codes, trim_prefix, length, ◌==◌, if◌then◌else◌, Outcome, ok, err,
}
use zk_cosmos_eth_bridge.Codec.Hex.{hex_decode}
use zk_cosmos_eth_bridge.Codec.Base64.{base64_decode}

pub data HashError : Type 0 where
  invalid_hash_format : Bytes → HashError

-- A decoded text that has the 32 bytes of a hash.
abbrev pub only_32 : Option Bytes → Option Bytes
only_32 none = none
only_32 (some b) = if length b == 32 then some b else none

-- The first of the two readings that gives a hash.
abbrev pub pick : Option Bytes → Option Bytes → Bytes → Outcome HashError Bytes
pick (some b) other s = ok b
pick none (some b) s = ok b
pick none none s = err (invalid_hash_format s)

-- Hex first, then base64.
unfoldable pub decode_trimmed : Bytes → Outcome HashError Bytes
unfolding hex_decode base64_decode
decode_trimmed s = pick (only_32 (hex_decode s)) (only_32 (base64_decode s)) s

unfoldable pub decode_hash : Bytes → Outcome HashError Bytes
unfolding decode_trimmed
decode_hash text = decode_trimmed (trim_prefix text (codes "0x"))
