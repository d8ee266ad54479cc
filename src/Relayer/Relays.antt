-- ===== src/Relayer/Relays.antt =====
-- What a run of `processEvent`, zk-bridge/cmd/relayer/main.go, sends to Ethereum.
use zk_cosmos_eth_bridge.Common.{
  ℕ, ◌≡◌, ap, sym, ◌∙◌, Option, none, some, [], if◌then◌else◌, arith, Bytes, text_eq, Outcome, ok,
  err, panic, or_err,
}
use zk_cosmos_eth_bridge.Rpc.Types.{TxResponse}
use zk_cosmos_eth_bridge.Rpc.Client.{Node, new_cosmos_client, get_tx_details}
use zk_cosmos_eth_bridge.Rpc.EvmHash.{get_evm_hash}
use zk_cosmos_eth_bridge.Prover.Witness.Laws.{bind-eq-ok}
use zk_cosmos_eth_bridge.Prover.Generate.{ProofFile, Backend, Generated, generate_proof}
use zk_cosmos_eth_bridge.Prover.Lock.{EthCommon, EvmNode, LockDetails, fetch_lock_details}
use zk_cosmos_eth_bridge.Prover.Submit.{
  Transaction, mint_method, SubmitError, EthNode, send, mint_args, submit_proof, update_root,
  dialed, deref, or_no_file,
}
use zk_cosmos_eth_bridge.Relayer.{
  Settings, retry, Skipped, and_hash, or_skip, not_indexed, no_evm_hash, no_lock, proving_failed,
  sent, Relayed, attempted, Proved, output_path, prove_event, relay_proved, process_event,
}

or_err-eq-ok : {E A : Type 0} (o : Option A) (e : E) {a : A} → or_err o e ≡ ok a → o ≡ some a
or_err-eq-ok none e h = cc
or_err-eq-ok (some a) e h = cc

and_hash-eq-some :
    (o : Option TxResponse) {resp : TxResponse} → and_hash o ≡ some resp → o ≡ some resp
and_hash-eq-some none h = h
and_hash-eq-some (some r) h = ground (arith, h)

nonempty_hash :
    (t : Bytes) {hash : Bytes}
    → or_err (if text_eq t [] then none else some t) no_evm_hash ≡ ok hash
    → hash ≡ t
nonempty_hash t h = ground (arith, h)

or_skip-eq-ok :
    {E A : Type 0} (o : Outcome E A) (f : E → Skipped) {a : A} → or_skip o f ≡ ok a → o ≡ ok a
or_skip-eq-ok (ok a) f h = cc
or_skip-eq-ok (err e) f h = cc
or_skip-eq-ok panic f h = cc

pub attempted-sent :
    (o : Outcome SubmitError Transaction) {tx : Transaction}
    → attempted o ≡ ok (sent tx)
    → o ≡ ok tx
attempted-sent (ok a) h = cc
attempted-sent (err e) h = cc
attempted-sent panic h = cc

module _ {Key : Type 0} (eth : EthCommon) (node : EthNode Key) where
  send-eq-ok : (t : Transaction) {tx : Transaction} → send eth node t ≡ ok tx → t ≡ tx
  send-eq-ok t h = let (_, _, same) = bind-eq-ok (node.transact t) _ h in cc

  -- Whatever `SubmitProof` sends goes to the bridge and is a mint with the arguments of its call.
  pub submit_proof-sent :
      (url key bridge_addr recipient root tx_hash : Bytes) (amount : ℕ) (file : Option ProofFile)
      {tx : Transaction}
      → submit_proof eth node url key bridge_addr recipient amount root tx_hash file ≡ ok tx
      → (tx.contract ≡ eth.hex_to_address bridge_addr)
        × (tx.method ≡ mint_method (mint_args eth (or_no_file file) root tx_hash recipient amount))
  unfolding submit_proof
  submit_proof-sent url key bridge_addr recipient root tx_hash amount file {tx} h =
      let (_, _, h1) = bind-eq-ok (dialed (node.dials url)) _ h in
      let (k, _, h2) = bind-eq-ok (deref (node.hex_to_ecdsa key)) _ h1 in
      let (transactor, _, h3) =
        bind-eq-ok (node.new_keyed_transactor (some k) node.chain_id) _ h2 in
      let (auth, _, h4) = bind-eq-ok (deref transactor) _ h3 in
      let same = send-eq-ok _ h4 in (sym (ap (λ t. t.contract) same), sym (ap (λ t. t.method) same))

module _ {Key : Type 0} (settings : Settings) (eth : EthCommon) (node : EthNode Key) where
  -- What the second half of a run submits.
  pub relay_proved-sent :
      (p : Proved) (file : Option ProofFile) {r : Relayed} {tx : Transaction}
      → relay_proved settings eth node p file ≡ ok r
      → r.submitted ≡ sent tx
      → (tx.contract ≡ eth.hex_to_address settings.bridge_dest_addr)
        × (tx.method
            ≡ mint_method (
                mint_args eth
                  (or_no_file file)
                  p.generated.root
                  p.generated.tx
                  p.lock_details.recipient
                  p.lock_details.amount))
  unfolding relay_proved
  relay_proved-sent p file {r} h submitted =
      let (first, _, h1) =
        bind-eq-ok
          (attempted (
            update_root eth node settings.ethereum_rpc_url settings.relayer_priv_key
              settings.bridge_dest_addr p.generated.root))
          _ h in
      let (second, attempt, h2) =
        bind-eq-ok
          (attempted (
            submit_proof eth node settings.ethereum_rpc_url settings.relayer_priv_key
              settings.bridge_dest_addr p.lock_details.recipient p.lock_details.amount
              p.generated.root p.generated.tx file))
          _ h1 in
      let made : Relayed = record { synchronized = first; submitted = second } in
      let same : made ≡ r = cc in
      let second_is = ap (λ q. q.submitted) same ∙ submitted in
      submit_proof-sent eth node _ _ settings.bridge_dest_addr p.lock_details.recipient
        p.generated.root p.generated.tx p.lock_details.amount file
        (attempted-sent _ (attempt ∙ ap ok second_is))

module _ {Proof : Type 0} (settings : Settings) (eth : EthCommon) (backend : Backend Proof) where
  prove_event_parts :
      (nodes : ℕ → Node) (node : Node) (evm : EvmNode) (tm_tx_hash : Bytes) {p : Proved}
      → prove_event settings eth backend nodes node evm tm_tx_hash ≡ ok p
      → (resp : TxResponse) × (retry
            (λ i. get_tx_details (nodes i) (new_cosmos_client settings.cosmos_rpc_url) tm_tx_hash)
            5
            0
            none
          ≡ some resp)
        × (fetch_lock_details eth evm settings.cosmos_evm_rpc_url settings.bridge_source_addr
              (get_evm_hash resp)
            ≡ ok p.lock_details)
        × (generate_proof backend node settings.cosmos_rpc_url tm_tx_hash output_path
            ≡ ok p.generated)
  unfolding prove_event
  prove_event_parts nodes node evm tm_tx_hash {p} h =
      let (resp, found, h1) =
        bind-eq-ok
          (or_err
            (and_hash (
              retry
                (λ i.
                  get_tx_details (nodes i) (new_cosmos_client settings.cosmos_rpc_url) tm_tx_hash)
                5 0 none))
            not_indexed)
          _ h in
      let (hash, mapped, h2) =
        bind-eq-ok
          (or_err (if text_eq (get_evm_hash resp) [] then none else some (get_evm_hash resp))
            no_evm_hash)
          _ h1 in
      let (details, locked, h3) =
        bind-eq-ok
          (or_skip
            (fetch_lock_details eth evm settings.cosmos_evm_rpc_url settings.bridge_source_addr
              hash)
            no_lock)
          _ h2 in
      let (generated, proved, h4) =
        bind-eq-ok
          (or_skip (generate_proof backend node settings.cosmos_rpc_url tm_tx_hash output_path)
            proving_failed)
          _ h3 in
      let made : Proved = record { lock_details = details; generated = generated } in
      let same : made ≡ p = cc in
      let hash_is : hash ≡ get_evm_hash resp = nonempty_hash (get_evm_hash resp) mapped in
      (
        resp,
        and_hash-eq-some _ (or_err-eq-ok _ not_indexed found),
        ap (fetch_lock_details eth evm settings.cosmos_evm_rpc_url settings.bridge_source_addr)
              (sym hash_is)
            ∙ or_skip-eq-ok _ no_lock locked
            ∙ ap (λ q. ok q.lock_details) same,
        or_skip-eq-ok _ proving_failed proved ∙ ap (λ q. ok q.generated) same,
      )

module _ {Proof : Type 0} (settings : Settings) (eth : EthCommon) (backend : Backend Proof) where
  -- What stands behind a transaction that the relayer submitted.
  pub record IsRelayed (nodes : ℕ → Node) (node : Node) (evm : EvmNode) (tm_tx_hash : Bytes)
      (tx : Transaction) : Type 0 where
    pub resp : TxResponse
    pub found :
        retry
          (λ i. get_tx_details (nodes i) (new_cosmos_client settings.cosmos_rpc_url) tm_tx_hash)
          5
          0
          none
        ≡ some resp
    pub details : LockDetails
    pub locked :
        fetch_lock_details eth evm settings.cosmos_evm_rpc_url settings.bridge_source_addr
          (get_evm_hash resp)
        ≡ ok details
    pub generated : Generated
    pub proved :
        generate_proof backend node settings.cosmos_rpc_url tm_tx_hash output_path ≡ ok generated
    pub to_bridge : tx.contract ≡ eth.hex_to_address settings.bridge_dest_addr
    pub mints :
        tx.method
        ≡ mint_method (
            mint_args eth generated.file generated.root generated.tx details.recipient
              details.amount)

module _ {Key Proof : Type 0} (settings : Settings) (eth : EthCommon)
    (backend : Backend Proof) where
  -- A mint that a run submits stands on a lock and on a proof: the response is the one of the
  -- retries, the lock details are those of the bridge's event in the receipt of its EVM hash, the
  -- proof is the one that `GenerateProof` made, and the mint has that proof's points, root and
  -- hash, and the lock's recipient and amount.
  pub process_event_sound :
      (nodes : ℕ → Node) (node : Node) (evm : EvmNode) (eth_node : EthNode Key) (tm_tx_hash : Bytes)
      (r : Relayed) (tx : Transaction)
      → process_event settings eth backend nodes node evm eth_node tm_tx_hash ≡ ok r
      → r.submitted ≡ sent tx
      → IsRelayed settings eth backend nodes node evm tm_tx_hash tx
  unfolding process_event
  process_event_sound nodes node evm eth_node tm_tx_hash r tx h submitted =
      let (p, proved, h1) =
        bind-eq-ok (prove_event settings eth backend nodes node evm tm_tx_hash) _ h in
      let (contract_is, method_is) =
        relay_proved-sent settings eth eth_node p (some p.generated.file) h1 submitted in
      let (resp, found, locked, generated) =
        prove_event_parts settings eth backend nodes node evm tm_tx_hash proved in
      record {
        resp = resp;
        found = found;
        details = p.lock_details;
        locked = locked;
        generated = p.generated;
        proved = generated;
        to_bridge = contract_is;
        mints = method_is;
      }
