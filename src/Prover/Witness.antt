-- ===== src/Prover/Witness.antt =====
-- The witness that `GenerateProof` of zk-bridge/pkg/prover/prover.go builds from the RPC's answer.
pub mod Laws
pub mod Included
use zk_cosmos_eth_bridge.Common.{
  ℕ, zero, suc, ◌+◌, ◌-◌, ◌/◌, ◌%◌, ◌^◌, Option, none, some, List, [], ◌∷◌, ◌++◌, leb,
  if◌then◌else◌, Bytes, text_eq, length, take, drop, replicate, Outcome, ok, err, panic, ◌>>=◌,
}
use zk_cosmos_eth_bridge.Common.Int.{ℤ, pos, negsuc}
use zk_cosmos_eth_bridge.Codec.BigEndian.{pack_words}
use zk_cosmos_eth_bridge.Codec.Decimal.{sscanf_int}
use zk_cosmos_eth_bridge.Rpc.Types.{TxResponse}
use zk_cosmos_eth_bridge.Rpc.Client.{RpcError}
use zk_cosmos_eth_bridge.Rpc.Hash.{HashError, decode_hash}
use zk_cosmos_eth_bridge.Circuit.Define.{merkle_depth, ZkBridgeCircuit}

pub data ProveError : Type 0 where
  fetch_failed : RpcError → ProveError
  root_hash_missing compile_failed proving_key_missing verifying_key_missing witness_failed
        prove_failed verification_failed write_failed :
      ProveError

abbrev pub zero_hash : Bytes
zero_hash = replicate 32 0

-- `if a == "" { a = b }`
abbrev pub or_text : Bytes → Bytes → Bytes
or_text a b = if text_eq a [] then b else a

-- `x, _ := DecodeHash(...)`: the error is dropped, and leaves a nil slice.
abbrev pub unchecked : Outcome HashError Bytes → Bytes
unchecked (ok b) = b
unchecked (err e) = []
unchecked panic = []

-- `copy(array[:], src)` into an array of 32 zeros.
unfoldable pub copy_32 : Bytes → Bytes
copy_32 src = take 32 (src ++ drop (length src) zero_hash)

abbrev pub leaf_text : TxResponse → Bytes
leaf_text resp =
    or_text resp.result.proof.proof.leaf_hash
      (or_text (or_text resp.result.hash resp.hash) resp.tx_hash)

-- A Go `int` as its 64-bit pattern, with the arithmetic shift to the right.
abbrev pub pattern_of : ℤ → ℕ
pattern_of (pos n) = n
pattern_of (negsuc n) = 2 ^ 64 - 1 - n

abbrev pub shift_right : ℕ → ℕ
shift_right x = x / 2 + (if leb (2 ^ 63) x then 2 ^ 63 else 0)

-- The index stays 0 where the text is empty or is no number.
unfoldable pub leaf_index : Bytes → ℕ
unfolding sscanf_int
leaf_index index_str = elim (sscanf_int index_str) [ none ↦ 0 | some i ↦ pattern_of i ]

-- The siblings and the sides for the `n` levels that are left: `siblingBytes[j]` panics where the
-- hash was not decoded, and levels beyond the path are zero.
unfoldable pub proof_levels : ℕ → List Bytes → ℕ → Outcome ProveError (List Bytes × List ℕ)
proof_levels zero aunts index = ok ([], [])
proof_levels (suc n) [] index = do
  rest ← proof_levels n [] index
  ok (zero_hash ∷ rest.0, 0 ∷ rest.1)
proof_levels (suc n) (aunt ∷ aunts) index = do
  sibling ← elim (decode_hash aunt) [ ok b ↦ ok b | err e ↦ panic | panic ↦ panic ]
  rest ← proof_levels n aunts (shift_right index)
  ok (sibling ∷ rest.0, index % 2 ∷ rest.1)

abbrev pub witness_of : Bytes → Bytes → List Bytes → List Bytes × List ℕ → ZkBridgeCircuit
witness_of root tx aunts proof = record {
  packed_root = pack_words 4 root;
  packed_tx_hash = pack_words 4 tx;
  proof_path = proof.0;
  proof_helper = proof.1;
  actual_depth = length aunts;
}

unfoldable pub make_witness : Bytes → Bytes → List Bytes → ℕ → Outcome ProveError ZkBridgeCircuit
unfolding proof_levels pack_words
make_witness root tx aunts index = do
  proof ← proof_levels merkle_depth aunts index
  ok (witness_of root tx aunts proof)
