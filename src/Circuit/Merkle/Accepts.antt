-- ===== src/Circuit/Merkle/Accepts.antt =====
-- Which assignments `Define` of zk-bridge/pkg/circuits/bridge.go accepts.
use zk_cosmos_eth_bridge.Common.{
  ℕ, ◌*◌, ◌≡◌, refl, ap, sym, ◌∙◌, ◌↔◌, Option, some, none, ◌-◌, List, [], ◌∷◌, arith, Bytes, All,
  length, length-append, text_eq, text_eq_refl, text_eq→eq, if◌then◌else◌,
}
use mathlib.Core.Option.{some-injective}
use zk_cosmos_eth_bridge.Common.Maybe.{>>=-eq-some}
use zk_cosmos_eth_bridge.Codec.BigEndian.{be_bytes}
use zk_cosmos_eth_bridge.Circuit.Api.{Api, IsGnark}
use zk_cosmos_eth_bridge.Circuit.Define.{ZkBridgeCircuit, IsShaped, unpack, levels, define}
use zk_cosmos_eth_bridge.Circuit.Unpack.{FitsWord, words_bytes, unpack-words_bytes, unpack_sound}
use zk_cosmos_eth_bridge.Circuit.Merkle.{IsBit, climb}
use zk_cosmos_eth_bridge.Circuit.Merkle.Levels.{levels-climb, levels_bits}

-- What an assignment proves: its words have 64 bits and its sides are bits, and the first
-- `actual_depth` siblings lead from the transaction hash to the root.
pub record IsIncluded (api : Api) (c : ZkBridgeCircuit) : Type 0 where
  pub root_fits : All FitsWord c.packed_root
  pub tx_hash_fits : All FitsWord c.packed_tx_hash
  pub side_bits : All IsBit c.proof_helper
  pub reaches_root :
      climb api.sha256 c.actual_depth c.proof_path c.proof_helper (words_bytes c.packed_tx_hash)
      ≡ words_bytes c.packed_root

length-words_bytes : (ws : List ℕ) → length (words_bytes ws) ≡ 8 * length ws
unfolding words_bytes
length-words_bytes [] = refl
length-words_bytes (w ∷ ws) =
    omega (arith, length-words_bytes ws, length-append (be_bytes w) (words_bytes ws))

same_text :
    (s t : Bytes)
    → ◌≡◌ {A = Option (Unit {0})} (if text_eq s t then some tt else none) (some tt)
    → s ≡ t
same_text s t e = text_eq→eq s t (ground arith)

module _ (api : Api) (gnark : IsGnark api) (c : ZkBridgeCircuit) (shaped : IsShaped c) where
  leaf32 : length (words_bytes c.packed_tx_hash) ≡ 32
  leaf32 = omega (arith, length-words_bytes c.packed_tx_hash, shaped.tx_hash_words)

  top :
      All IsBit c.proof_helper
      → levels api 0 c.actual_depth c.proof_path c.proof_helper (words_bytes c.packed_tx_hash)
        ≡ some (
            climb api.sha256 c.actual_depth c.proof_path c.proof_helper
              (words_bytes c.packed_tx_hash))
  top bits =
      let whole : c.actual_depth - 0 ≡ c.actual_depth = omega arith in
      levels-climb api gnark 0 c.actual_depth c.proof_path c.proof_helper
        (words_bytes c.packed_tx_hash) shaped.path_bytes bits leaf32
      ∙ ap
          (λ d.
            some (climb api.sha256 d c.proof_path c.proof_helper (words_bytes c.packed_tx_hash)))
          whole

  define_complete : IsIncluded api c → define api c ≡ some tt
  unfolding define
  define_complete p = rw (
    unpack-words_bytes api gnark c.packed_root p.root_fits,
    unpack-words_bytes api gnark c.packed_tx_hash p.tx_hash_fits,
    top p.side_bits,
    p.reaches_root,
    text_eq_refl (words_bytes c.packed_root),
  )

  define_sound : define api c ≡ some tt → IsIncluded api c
  unfolding define
  define_sound e =
      let (root, root_is, e1) = >>=-eq-some (unpack api c.packed_root) _ e in
      let (leaf, leaf_is, e2) = >>=-eq-some (unpack api c.packed_tx_hash) _ e1 in
      let (current, current_is, e3) =
        >>=-eq-some (levels api 0 c.actual_depth c.proof_path c.proof_helper leaf) _ e2 in
      let (root_fits, root_bytes) = unpack_sound api gnark c.packed_root root_is in
      let (leaf_fits, leaf_bytes) = unpack_sound api gnark c.packed_tx_hash leaf_is in
      let bits =
        levels_bits api gnark 0 c.actual_depth c.proof_path c.proof_helper leaf shaped.path_bytes
          (shaped.helper_levels ∙ sym shaped.path_levels) (ap length leaf_bytes ∙ leaf32)
          current_is in
      let arrived : current ≡ root = same_text current root e3 in
      record {
        root_fits = root_fits;
        tx_hash_fits = leaf_fits;
        side_bits = bits;
        reaches_root =
            some-injective _ _ (
              sym (top bits)
              ∙ ap (levels api 0 c.actual_depth c.proof_path c.proof_helper) (sym leaf_bytes)
              ∙ current_is)
            ∙ arrived
            ∙ root_bytes;
      }

  -- Under gnark's guarantees, an assignment of the circuit's shape satisfies the circuit exactly
  -- where its words have 64 bits, its sides are bits, and its first `actual_depth` siblings lead
  -- from the transaction hash to the root.
  pub define_iff : (define api c ≡ some tt) ↔ IsIncluded api c
  define_iff = (define_sound, define_complete)
