-- ===== src/Prover/Witness/Included.antt =====
-- The circuit on a witness of the prover, in the terms of the RPC's Merkle proof.
use mathlib.Core.Path.{subst}
use zk_cosmos_eth_bridge.Common.{
  ℕ, ◌^◌, ◌≤◌, ◌<◌, ◌≡◌, ap, sym, ◌∙◌, ◌↔◌, some, List, Bytes, length, ok,
}
use zk_cosmos_eth_bridge.Rpc.Hash.Laws.{IsHash}
use zk_cosmos_eth_bridge.Codec.BigEndian.{pack_words}
use zk_cosmos_eth_bridge.Circuit.Api.{Api, IsGnark}
use zk_cosmos_eth_bridge.Circuit.Define.{merkle_depth, ZkBridgeCircuit, define}
use zk_cosmos_eth_bridge.Circuit.Unpack.{words_bytes, words_bytes-pack_words, pack_words-FitsWord}
use zk_cosmos_eth_bridge.Circuit.Merkle.{climb}
use zk_cosmos_eth_bridge.Circuit.Merkle.Accepts.{define_iff}
use zk_cosmos_eth_bridge.Prover.Witness.{proof_levels, witness_of, make_witness}
use zk_cosmos_eth_bridge.Prover.Witness.Laws.{
  decode_all, merkle_root, climb-proof_levels, proof_levels-IsLevels, make_witness_levels,
  witness_of-IsShaped,
}

module _ (api : Api) (gnark : IsGnark api) (root tx : Bytes) (aunts : List Bytes) (index : ℕ)
    (root32 : IsHash root) (tx32 : IsHash tx) (fits : length aunts ≤ merkle_depth)
    (small : index < 2 ^ 63) where
  root_bytes : words_bytes (pack_words 4 root) ≡ root
  root_bytes = words_bytes-pack_words 4 root root32.1 root32.0

  tx_bytes : words_bytes (pack_words 4 tx) ≡ tx
  tx_bytes = words_bytes-pack_words 4 tx tx32.1 tx32.0

  witness_of_iff :
      (proof : List Bytes × List ℕ)
      → proof_levels merkle_depth aunts index ≡ ok proof
      → (siblings : List Bytes) × (decode_all aunts ≡ some siblings)
        × ((define api (witness_of root tx aunts proof) ≡ some tt)
            ↔ (merkle_root api.sha256 index siblings tx ≡ root))
  witness_of_iff proof h =
      let (siblings, decoded, climbs) =
        climb-proof_levels api.sha256 merkle_depth aunts index proof tx fits small h in
      let shaped = witness_of-IsShaped root tx aunts index proof h in
      let l = proof_levels-IsLevels merkle_depth aunts index proof h in
      let both = define_iff api gnark (witness_of root tx aunts proof) shaped in
      let from_tx = ap (λ t. climb api.sha256 (length aunts) proof.0 proof.1 t) tx_bytes in
      (
        siblings,
        decoded,
        (
          λ e. sym climbs ∙ sym from_tx ∙ (both.0 e).reaches_root ∙ root_bytes,
          λ e. both.1 (record {
            root_fits = pack_words-FitsWord 4 root root32.1 root32.0;
            tx_hash_fits = pack_words-FitsWord 4 tx tx32.1 tx32.0;
            side_bits = l.side_bits;
            reaches_root = from_tx ∙ climbs ∙ e ∙ sym root_bytes;
          }),
        ),
      )

  -- Under gnark's guarantees, for a root and a hash of 32 bytes, a path of at most 32 aunts and an
  -- index that is not negative: where the prover builds a witness, the aunts can all be decoded,
  -- and the witness satisfies the circuit exactly if the Merkle root above the hash, at its index,
  -- is the root.
  pub make_witness_iff :
      {w : ZkBridgeCircuit}
      → make_witness root tx aunts index ≡ ok w
      → (siblings : List Bytes) × (decode_all aunts ≡ some siblings)
        × ((define api w ≡ some tt) ↔ (merkle_root api.sha256 index siblings tx ≡ root))
  make_witness_iff h =
      let (proof, levels_are, same) = make_witness_levels root tx aunts index h in
      let (siblings, decoded, both) = witness_of_iff proof levels_are in
      (
        siblings,
        decoded,
        subst (λ w. (define api w ≡ some tt) ↔ (merkle_root api.sha256 index siblings tx ≡ root))
            same both,
      )
