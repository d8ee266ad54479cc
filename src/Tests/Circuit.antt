-- ===== src/Tests/Circuit.antt =====
-- The circuit on a path of one sibling.
use zk_cosmos_eth_bridge.Common.{◌≡◌, ◌↔◌, refl, some, [], ◌∷◌, arith, replicate, All, IsByte}
use zk_cosmos_eth_bridge.Codec.BigEndian.{be_value, pack_words}
use zk_cosmos_eth_bridge.Circuit.Api.{bits_of, bits_value}
use zk_cosmos_eth_bridge.Circuit.Define.{ZkBridgeCircuit, IsShaped, unpack, define}
use zk_cosmos_eth_bridge.Circuit.Unpack.{unpack-pack_words}
use zk_cosmos_eth_bridge.Circuit.Merkle.Accepts.{IsIncluded, define_iff}
use zk_cosmos_eth_bridge.Tests.Data.{toy_api, toy_api-IsGnark, leaf, sibling}

abbrev one_sibling : ZkBridgeCircuit
one_sibling = record {
  packed_root = 504403158265495552 ∷ 0 ∷ 0 ∷ 0 ∷ [];
  packed_tx_hash = 0 ∷ 0 ∷ 0 ∷ 5 ∷ [];
  proof_path = sibling ∷ replicate 31 (replicate 32 0);
  proof_helper = replicate 32 0;
  actual_depth = 1;
}

one_sibling-IsShaped : IsShaped one_sibling
one_sibling-IsShaped = record {
  root_words = refl;
  tx_hash_words = refl;
  path_levels = refl;
  path_bytes = ground arith;
  helper_levels = refl;
}

define-one_sibling : define toy_api one_sibling ≡ some tt
unfolding be_value bits_of bits_value define
define-one_sibling = refl

define_iff_example : (define toy_api one_sibling ≡ some tt) ↔ IsIncluded toy_api one_sibling
define_iff_example = define_iff toy_api toy_api-IsGnark one_sibling one_sibling-IsShaped

leaf_bytes : All IsByte leaf
leaf_bytes = ground arith

unpack-pack_words_example : unpack toy_api (pack_words 4 leaf) ≡ some leaf
unpack-pack_words_example = unpack-pack_words toy_api toy_api-IsGnark 4 leaf refl leaf_bytes
