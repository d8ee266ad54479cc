-- ===== src/Tests/Data.antt =====
-- Small stand-ins for gnark, for the nodes and for go-ethereum's helpers.
use zk_cosmos_eth_bridge.Common.{
  ℕ, ◌%◌, ◌^◌, ◌≡◌, ◌≢◌, refl, Option, none, some, [], ◌∷◌, ◌++◌, arith, ltb, ◌==◌, if◌then◌else◌,
  Bytes, codes, replicate,
}
use zk_cosmos_eth_bridge.Codec.BigEndian.{be_value}
use zk_cosmos_eth_bridge.Circuit.Api.{Api, IsGnark, bits_of, bits_value}

abbrev pub toy_select : ℕ → ℕ → ℕ → Option ℕ
toy_select b x y = if b == 1 then some x else if b == 0 then some y else none

-- A hash of 32 bytes that tells only the last byte of its input.
abbrev pub toy_sha256 : Bytes → Bytes
toy_sha256 m = be_value 0 m % 256 ∷ replicate 31 0

abbrev pub toy_api : Api
toy_api = record {
  select = toy_select;
  is_less = λ a b. if ltb a b then 1 else 0;
  to_binary = λ v n. if ltb v (2 ^ n) then some (bits_of n v) else none;
  from_binary = bits_value;
  sha256 = toy_sha256;
}

toy_select_boolean : (b x y : ℕ) → b ≢ 0 → b ≢ 1 → toy_select b x y ≡ none
toy_select_boolean b x y h0 h1 = ground arith

pub toy_api-IsGnark : IsGnark toy_api
toy_api-IsGnark = record {
  select-one = λ x y. refl;
  select-zero = λ x y. refl;
  select_boolean = toy_select_boolean;
  is_less_lem = λ a b. refl;
  to_binary_lem = λ v n. refl;
  from_binary_lem = λ bs. refl;
  length-sha256 = λ m. refl;
}

-- The leaf, its sibling and the root above them: 32 bytes each, and their hex texts.
abbrev pub leaf : Bytes
leaf = replicate 31 0 ++ (5 ∷ [])

abbrev pub sibling : Bytes
sibling = replicate 31 0 ++ (7 ∷ [])

abbrev pub root : Bytes
root = 7 ∷ replicate 31 0

abbrev pub leaf_hex : Bytes
leaf_hex = codes "0000000000000000000000000000000000000000000000000000000000000005"

abbrev pub sibling_hex : Bytes
sibling_hex = codes "0000000000000000000000000000000000000000000000000000000000000007"

abbrev pub root_hex : Bytes
root_hex = codes "0700000000000000000000000000000000000000000000000000000000000000"
