-- ===== src/Prover/Generate.antt =====
-- `GenerateProof` of zk-bridge/pkg/prover/prover.go.
pub mod Laws
use zk_cosmos_eth_bridge.Common.{
  ℕ, ◌≡◌, ◌≢◌, Bool, true, false, Option, none, some, List, [], ◌∷◌, ◌++◌, if◌then◌else◌, Bytes,
  codes, text_eq, map, Outcome, ok, err, panic, ◌>>=◌, ◌>>◌, or_err,
}
use zk_cosmos_eth_bridge.Codec.Decimal.{decimal}
use zk_cosmos_eth_bridge.Rpc.Types.{TxResponse}
use zk_cosmos_eth_bridge.Rpc.Client.{Node, RpcError, new_cosmos_client, get_tx_details}
use zk_cosmos_eth_bridge.Rpc.Hash.{decode_hash}
use zk_cosmos_eth_bridge.Circuit.Api.{Api}
use zk_cosmos_eth_bridge.Circuit.Define.{ZkBridgeCircuit, define}
use zk_cosmos_eth_bridge.Prover.Witness.{
  ProveError, fetch_failed, root_hash_missing, compile_failed, proving_key_missing,
  verifying_key_missing, witness_failed, prove_failed, verification_failed, write_failed, unchecked,
  copy_32, leaf_text, leaf_index, make_witness,
}

-- A coordinate of `Bs`: an element `a0 + a1 u` of the quadratic extension.
pub record E2 (A : Type 0) : Type 0 where
  pub a0 : A
  pub a1 : A

-- The coordinates of a Groth16 proof as decimal texts. `commitments` has the points of
-- `bn254Proof.Commitments`, which may be none.
pub record ProofPoints : Type 0 where
  pub ar : Bytes × Bytes
  pub bs_x : E2 Bytes
  pub bs_y : E2 Bytes
  pub krs : Bytes × Bytes
  pub commitments : List (Bytes × Bytes)
  pub commitment_pok : Bytes × Bytes

-- The file that `GenerateProof` writes and `SubmitProof` reads.
pub record ProofFile : Type 0 where
  pub a : Bytes × Bytes
  pub b : Bytes × Bytes × Bytes × Bytes
  pub c : Bytes × Bytes
  pub commitments : Bytes × Bytes
  pub commitment_pok : Bytes × Bytes
  pub public_inputs : List Bytes

-- gnark's Groth16 and the files around it.
pub record Backend (Proof : Type 0) : Type 0 where
  pub compiles : Bool
  pub go_mod_exists : Bool
  pub opens : Bytes → Bool
  pub new_witness : ZkBridgeCircuit → Bool
  pub prove : ZkBridgeCircuit → Option Proof
  pub verify : Proof → List ℕ → Bool
  pub points : Proof → ProofPoints
  pub writes : Bytes → Bool

-- What gnark documents of `groth16.Prove`: it fails on a witness that does not satisfy the circuit.
pub record IsProver {Proof : Type 0} (api : Api) (backend : Backend Proof) : Type 0 where
  pub prove_satisfies : (w : ZkBridgeCircuit) → backend.prove w ≢ none → define api w ≡ some tt

pub record Generated : Type 0 where
  pub root : Bytes
  pub tx : Bytes
  pub file : ProofFile

abbrev pub check : Bool → ProveError → Outcome ProveError (Unit {0})
check true e = ok tt
check false e = err e

-- `commitments[0] = ...` where the proof has commitments, and "0" where it has none.
abbrev first_commitment : List (Bytes × Bytes) → Bytes × Bytes
first_commitment [] = (codes "0", codes "0")
first_commitment (p ∷ ps) = p

abbrev pok_pair : Bytes × Bytes → Bytes × Bytes
pok_pair p = if text_eq p.0 [] then (codes "0", codes "0") else p

unfoldable pub export_file : ProofPoints → ZkBridgeCircuit → ProofFile
unfolding decimal
export_file p w = record {
  a = p.ar;
  b = (p.bs_x.a1, p.bs_x.a0, p.bs_y.a1, p.bs_y.a0);
  c = p.krs;
  commitments = first_commitment p.commitments;
  commitment_pok = pok_pair p.commitment_pok;
  public_inputs = map decimal w.packed_root ++ map decimal w.packed_tx_hash;
}

-- The answer of the node, or the error that `GenerateProof` makes of the client's.
abbrev fetched : Outcome RpcError TxResponse → Outcome ProveError TxResponse
fetched (ok resp) = ok resp
fetched (err e) = err (fetch_failed e)
fetched panic = panic

module _ {Proof : Type 0} (backend : Backend Proof) where
  abbrev keys_dir : Bytes
  keys_dir = if backend.go_mod_exists then codes "keys" else codes "../../keys"

  -- Steps 1 to 4: compile, load the keys, prove, verify, write.
  unfoldable pub prove_and_export : Bytes → ZkBridgeCircuit → Outcome ProveError ProofFile
  prove_and_export output_path w = do
    check backend.compiles compile_failed
    check (backend.opens (keys_dir ++ codes "/proving.key")) proving_key_missing
    check (backend.opens (keys_dir ++ codes "/verifying.key")) verifying_key_missing
    check (backend.new_witness w) witness_failed
    proof ← or_err (backend.prove w) prove_failed
    check (backend.verify proof (w.packed_root ++ w.packed_tx_hash)) verification_failed
    check (backend.writes output_path) write_failed
    ok (export_file (backend.points proof) w)

  -- The result of a call that succeeds. One that fails may also return the root and the hash that
  -- it had read by then, which its caller drops.
  unfoldable pub generate_proof : Node → Bytes → Bytes → Bytes → Outcome ProveError Generated
  generate_proof node cosmos_rpc_url tx_hash_hex output_path = do
    resp ← fetched (get_tx_details node (new_cosmos_client cosmos_rpc_url) tx_hash_hex)
    let root_text = resp.result.proof.root_hash
    check (if text_eq root_text [] then false else true) root_hash_missing
    let root = copy_32 (unchecked (decode_hash root_text))
    let tx = copy_32 (unchecked (decode_hash (leaf_text resp)))
    let merkle = resp.result.proof.proof
    w ← make_witness root tx merkle.aunts (leaf_index merkle.index)
    file ← prove_and_export output_path w
    ok (record { root = root; tx = tx; file = file })
