-- ===== src/Prover/Generate/Laws.antt =====
-- What a proof of `GenerateProof`, zk-bridge/pkg/prover/prover.go, shows.
use mathlib.Core.Path.{subst}
use mathlib.Core.Option.{none-ne-some}
use zk_cosmos_eth_bridge.Common.{
  ◌^◌, ◌≤◌, ◌<◌, ◌≡◌, refl, sym, ◌∙◌, true, false, Option, none, some, List, [], if◌then◌else◌,
  Bytes, text_eq, length, take, replicate, Outcome, ok, err, panic, or_err,
}
use zk_cosmos_eth_bridge.Rpc.Types.{TxResponse}
use zk_cosmos_eth_bridge.Rpc.Client.{RpcError, Node, new_cosmos_client, get_tx_details}
use zk_cosmos_eth_bridge.Rpc.Hash.{decode_hash, decode_trimmed, HashError}
use zk_cosmos_eth_bridge.Codec.Hex.{hex_decode}
use zk_cosmos_eth_bridge.Rpc.Hash.Laws.{IsHash}
use zk_cosmos_eth_bridge.Circuit.Api.{Api, IsGnark}
use zk_cosmos_eth_bridge.Circuit.Define.{merkle_depth, ZkBridgeCircuit, define}
use zk_cosmos_eth_bridge.Prover.Witness.{
  prove_failed, root_hash_missing, zero_hash, unchecked, copy_32, leaf_text, leaf_index,
  make_witness,
}
use zk_cosmos_eth_bridge.Prover.Witness.Laws.{
  bind-eq-ok, decode_all, merkle_root, proof_levels_undecodable, copy_32-unchecked-IsHash,
  copy_32-decode_hash_err,
}
use zk_cosmos_eth_bridge.Prover.Witness.Included.{make_witness_iff}
use zk_cosmos_eth_bridge.Prover.Generate.{
  ProofFile, Backend, IsProver, Generated, export_file, fetched, check, prove_and_export,
  generate_proof,
}

same_ok : {a b : TxResponse} → ◌≡◌ {A = Outcome RpcError TxResponse} (ok a) (ok b) → a ≡ b
same_ok e = cc

or_err-eq-ok : {E A : Type 0} (o : Option A) (e : E) {a : A} → or_err o e ≡ ok a → o ≡ some a
or_err-eq-ok none e h = cc
or_err-eq-ok (some a) e h = cc

fetched-eq-ok :
    (o : Outcome RpcError TxResponse) {resp : TxResponse} → fetched o ≡ ok resp → o ≡ ok resp
fetched-eq-ok (ok r) h = cc
fetched-eq-ok (err e) h = cc
fetched-eq-ok panic h = cc

-- A response with another root hash.
abbrev pub with_root : Bytes → TxResponse → TxResponse
with_root root resp = record resp {
  result = record resp.result { proof = record resp.result.proof { root_hash = root } };
}

abbrev pub zero_root : Bytes
zero_root = replicate 64 48

copy_32-zero_root : copy_32 (unchecked (decode_hash zero_root)) ≡ zero_hash
unfolding decode_hash decode_trimmed hex_decode copy_32
copy_32-zero_root = refl

module _ {Proof : Type 0} (backend : Backend Proof) where
  -- A file is written only for a witness that the prover and the verifier accept.
  prove_and_export_sound :
      (path : Bytes) (w : ZkBridgeCircuit) {file : ProofFile}
      → prove_and_export backend path w ≡ ok file
      → (p : Proof) × (backend.prove w ≡ some p) × (export_file (backend.points p) w ≡ file)
  unfolding prove_and_export
  prove_and_export_sound path w h =
      let (_, _, h1) = bind-eq-ok (check backend.compiles _) _ h in
      let (_, _, h2) = bind-eq-ok (check (backend.opens _) _) _ h1 in
      let (_, _, h3) = bind-eq-ok (check (backend.opens _) _) _ h2 in
      let (_, _, h4) = bind-eq-ok (check (backend.new_witness w) _) _ h3 in
      let (proof, proved, h5) = bind-eq-ok (or_err (backend.prove w) _) _ h4 in
      let (_, _, h6) = bind-eq-ok (check (backend.verify proof _) _) _ h5 in
      let (_, _, h7) = bind-eq-ok (check (backend.writes path) _) _ h6 in
      (proof, or_err-eq-ok (backend.prove w) prove_failed proved, cc)

  -- The parts of a successful call.
  record Parts (node : Node) (url tx_hash path : Bytes) (g : Generated) : Type 0 where
    resp : TxResponse
    answered : get_tx_details node (new_cosmos_client url) tx_hash ≡ ok resp
    witness : ZkBridgeCircuit
    built :
        make_witness g.root g.tx resp.result.proof.proof.aunts
          (leaf_index resp.result.proof.proof.index)
        ≡ ok witness
    exported : prove_and_export backend path witness ≡ ok g.file
    root_is : g.root ≡ copy_32 (unchecked (decode_hash resp.result.proof.root_hash))
    tx_is : g.tx ≡ copy_32 (unchecked (decode_hash (leaf_text resp)))

  generate_proof-Parts :
      (node : Node) (url tx_hash path : Bytes) {g : Generated}
      → generate_proof backend node url tx_hash path ≡ ok g
      → Parts node url tx_hash path g
  unfolding generate_proof
  generate_proof-Parts node url tx_hash path {g} h =
      let (resp, answered, h1) =
        bind-eq-ok (fetched (get_tx_details node (new_cosmos_client url) tx_hash)) _ h in
      let (_, _, h2) =
        bind-eq-ok
          (check (if text_eq resp.result.proof.root_hash [] then false else true) root_hash_missing)
          _ h1 in
      let root = copy_32 (unchecked (decode_hash resp.result.proof.root_hash)) in
      let tx = copy_32 (unchecked (decode_hash (leaf_text resp))) in
      let merkle = resp.result.proof.proof in
      let (w, built, h3) =
        bind-eq-ok (make_witness root tx merkle.aunts (leaf_index merkle.index)) _ h2 in
      let (file, exported, h4) = bind-eq-ok (prove_and_export backend path w) _ h3 in
      let made : Generated = record { root = root; tx = tx; file = file } in
      let same : made ≡ g = cc in
      subst (Parts node url tx_hash path) same (record {
        resp = resp;
        answered = fetched-eq-ok _ answered;
        witness = w;
        built = built;
        exported = exported;
        root_is = refl;
        tx_is = refl;
      })

  -- Under gnark's guarantees, a proof that is generated for a path of at most 32 siblings, at an
  -- index that is not negative, proves inclusion: the siblings can all be decoded, and the Merkle
  -- root above the returned transaction hash, at the index of the response, is the returned root.
  pub generate_proof_included :
      (api : Api)
      → IsGnark api
      → IsProver api backend
      → (node : Node) (url tx_hash path : Bytes) {g : Generated} {resp : TxResponse}
      → generate_proof backend node url tx_hash path ≡ ok g
      → get_tx_details node (new_cosmos_client url) tx_hash ≡ ok resp
      → length resp.result.proof.proof.aunts ≤ merkle_depth
      → leaf_index resp.result.proof.proof.index < 2 ^ 63
      → (siblings : List Bytes) × (decode_all resp.result.proof.proof.aunts ≡ some siblings)
        × (merkle_root api.sha256 (leaf_index resp.result.proof.proof.index) siblings g.tx ≡ g.root)
  generate_proof_included api gnark prover node url tx_hash path {g} {resp} h answer fits small =
      let parts = generate_proof-Parts node url tx_hash path h in
      let built =
        subst
          (λ (r : TxResponse).
            make_witness g.root g.tx r.result.proof.proof.aunts
              (leaf_index r.result.proof.proof.index)
            ≡ ok parts.witness)
          (same_ok (sym parts.answered ∙ answer)) parts.built in
      let (siblings, decoded, both) =
        make_witness_iff api gnark g.root g.tx _ _
          (subst IsHash (sym parts.root_is) (copy_32-unchecked-IsHash _ _ refl))
          (subst IsHash (sym parts.tx_is) (copy_32-unchecked-IsHash _ _ refl)) fits small built in
      (siblings, decoded, both.0 (satisfied parts.witness parts.exported))
    where
      satisfied :
          (w : ZkBridgeCircuit) {file : ProofFile}
          → prove_and_export backend path w ≡ ok file
          → define api w ≡ some tt
      satisfied w e =
          let (p, proved, _) = prove_and_export_sound path w e in
          prover.prove_satisfies w (λ n. none-ne-some p (sym n ∙ proved))

  -- Where the root hash of the response is not empty and cannot be decoded, the call does what it
  -- does for a node that gives the same response with a root hash of 64 zero digits: it returns the
  -- same proof, error or panic, and not an error of the decoding.
  pub generate_proof_undecodable_root :
      (node zero_node : Node) (url tx_hash path : Bytes) (resp : TxResponse) (e : HashError)
      → get_tx_details node (new_cosmos_client url) tx_hash ≡ ok resp
      → get_tx_details zero_node (new_cosmos_client url) tx_hash ≡ ok (with_root zero_root resp)
      → text_eq resp.result.proof.root_hash [] ≡ false
      → decode_hash resp.result.proof.root_hash ≡ err e
      → generate_proof backend node url tx_hash path
        ≡ generate_proof backend zero_node url tx_hash path
  unfolding generate_proof
  generate_proof_undecodable_root node zero_node url tx_hash path resp e answer zero_answer present
        bad =
      rw
        (
          answer,
          zero_answer,
          present,
          copy_32-decode_hash_err resp.result.proof.root_hash e bad,
          copy_32-zero_root,
        )
        refl

  -- Where the response has a root hash, an aunt among the first 32 that cannot be decoded makes
  -- the call panic.
  pub generate_proof_undecodable_aunt :
      (node : Node) (url tx_hash path : Bytes) (resp : TxResponse)
      → get_tx_details node (new_cosmos_client url) tx_hash ≡ ok resp
      → text_eq resp.result.proof.root_hash [] ≡ false
      → decode_all (take merkle_depth resp.result.proof.proof.aunts) ≡ none
      → generate_proof backend node url tx_hash path ≡ panic
  unfolding generate_proof make_witness
  generate_proof_undecodable_aunt node url tx_hash path resp answer root bad = rw (
    answer,
    root,
    proof_levels_undecodable merkle_depth resp.result.proof.proof.aunts
        (leaf_index resp.result.proof.proof.index) bad,
  )
