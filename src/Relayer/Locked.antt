-- ===== src/Relayer/Locked.antt =====
-- From a lock on the source chain to the mint that the relayer submits.
use zk_cosmos_eth_bridge.Common.{
  ℕ, ◌^◌, ◌<◌, ◌≡◌, refl, ap, sym, ◌∙◌, true, Option, none, some, List, ◌∷◌, ◌++◌, Bytes, length,
  All, Outcome, ok,
}
use zk_cosmos_eth_bridge.Codec.Hex.{hex_encode}
use zk_cosmos_eth_bridge.Rpc.Types.{TxResponse}
use zk_cosmos_eth_bridge.Rpc.Client.{Node, new_cosmos_client, get_tx_details}
use zk_cosmos_eth_bridge.Rpc.EvmHash.{get_evm_hash}
use zk_cosmos_eth_bridge.Prover.Generate.{ProofFile, Backend, Generated, generate_proof}
use zk_cosmos_eth_bridge.Prover.Lock.{
  EthCommon, IsEthCommon, EvmNode, Log, LockDetails, LockError, lock_event_sig, fetch_lock_details,
}
use zk_cosmos_eth_bridge.Prover.Submit.{Transaction, MintArgs, mint_method, EthNode, mint_args}
use zk_cosmos_eth_bridge.Contracts.Source.{SourceState, SourceLock, lock, lock_log}
use zk_cosmos_eth_bridge.Contracts.Source.Laws.{IsOther}
use zk_cosmos_eth_bridge.Contracts.Source.Fetch.{fetch_lock_details-lock}
use zk_cosmos_eth_bridge.Relayer.{Settings, retry, Relayed, sent, process_event, output_path}
use zk_cosmos_eth_bridge.Relayer.Relays.{process_event_sound}

some-eq : {A : Type 0} {a b : A} → ◌≡◌ {A = Option A} (some a) (some b) → a ≡ b
some-eq e = cc

ok_details : {a b : LockDetails} → ◌≡◌ {A = Outcome LockError LockDetails} (ok a) (ok b) → a ≡ b
ok_details e = cc

-- A lock as the source chain records it: the contract took it, and the receipt has its event after
-- logs that are not the contract's.
pub record IsLocked (eth : EthCommon) (evm : EvmNode)
    (evm_rpc_url bridge_addr evm_tx_hash eth_destination : Bytes) (msg_value : ℕ) : Type 0 where
  pub msg_sender : Bytes
  pub before_lock : SourceState
  pub after_lock : SourceState
  pub entry : SourceLock
  pub taken : lock msg_sender msg_value eth_destination before_lock ≡ some (after_lock, entry)
  pub fits : msg_value < 2 ^ 256
  pub is_address : length eth_destination ≡ 20
  pub lock_topic : Bytes
  pub is_topic : hex_encode lock_topic ≡ lock_event_sig
  pub dials : evm.dials evm_rpc_url ≡ true
  pub before : List Log
  pub after : List Log
  pub receipt :
      evm.receipt_logs evm_rpc_url (eth.hex_to_hash evm_tx_hash)
      ≡ some (before ++ (lock_log (eth.hex_to_address bridge_addr) lock_topic entry ∷ after))
  pub others : All (IsOther eth bridge_addr) before

module _ (eth : EthCommon) (f : ProofFile) (root tx_hash recipient : Bytes) (amount : ℕ) where
  abbrev args : MintArgs
  args = mint_args eth f root tx_hash recipient amount

  mint_args-root : args.root ≡ root
  unfolding mint_args
  mint_args-root = refl

  mint_args-lock_tx_hash : args.lock_tx_hash ≡ tx_hash
  unfolding mint_args
  mint_args-lock_tx_hash = refl

  mint_args-recipient : args.recipient ≡ eth.hex_to_address recipient
  unfolding mint_args
  mint_args-recipient = refl

  mint_args-amount : args.amount ≡ amount
  unfolding mint_args
  mint_args-amount = refl

module _ {Key Proof : Type 0} (settings : Settings) (eth : EthCommon)
    (backend : Backend Proof) where
  -- Under go-ethereum's conversions, the relayer mints what was locked: where the transaction that
  -- the retries find is a lock of an amount for an Ethereum address (`IsLocked`), whatever mint a
  -- run submits goes to the destination bridge and is for that address and amount, with the root
  -- and hash of a proof that `GenerateProof` made in that run.
  pub process_event_locked :
      IsEthCommon eth
      → (nodes : ℕ → Node) (node : Node) (evm : EvmNode) (eth_node : EthNode Key)
        (tm_tx_hash eth_destination : Bytes) (msg_value : ℕ) (resp : TxResponse) (r : Relayed)
        (tx : Transaction)
      → retry
          (λ i. get_tx_details (nodes i) (new_cosmos_client settings.cosmos_rpc_url) tm_tx_hash)
          5
          0
          none
        ≡ some resp
      → IsLocked eth evm settings.cosmos_evm_rpc_url settings.bridge_source_addr
          (get_evm_hash resp)
          eth_destination
          msg_value
      → process_event settings eth backend nodes node evm eth_node tm_tx_hash ≡ ok r
      → r.submitted ≡ sent tx
      → (g : Generated) × (args : MintArgs) × (generate_proof backend node settings.cosmos_rpc_url
            tm_tx_hash output_path
          ≡ ok g)
        × (tx.contract ≡ eth.hex_to_address settings.bridge_dest_addr)
        × (tx.method ≡ mint_method args)
        × (args.root ≡ g.root)
        × (args.lock_tx_hash ≡ g.tx)
        × (args.recipient ≡ eth_destination)
        × (args.amount ≡ msg_value)
  process_event_locked is_eth nodes node evm eth_node tm_tx_hash eth_destination msg_value resp r tx
        found locked h submitted =
      let relayed =
        process_event_sound settings eth backend nodes node evm eth_node tm_tx_hash r tx h
          submitted in
      let same_resp : relayed.resp ≡ resp = some-eq (sym relayed.found ∙ found) in
      let fetched =
        fetch_lock_details-lock eth settings.bridge_source_addr is_eth evm
          settings.cosmos_evm_rpc_url (get_evm_hash resp) locked.lock_topic locked.msg_sender
          eth_destination msg_value locked.before_lock locked.after_lock locked.entry locked.before
          locked.after locked.taken locked.fits locked.is_address locked.is_topic locked.dials
          locked.receipt locked.others in
      let minted : LockDetails = record {
        recipient = eth.address_hex eth_destination;
        amount = msg_value;
      } in
      let same : relayed.details ≡ minted = ok_details (
        sym relayed.locked
        ∙ ap
            (λ q.
              fetch_lock_details eth evm settings.cosmos_evm_rpc_url settings.bridge_source_addr
                (get_evm_hash q))
            same_resp
        ∙ fetched) in
      let g = relayed.generated in
      (
        g,
        mint_args eth g.file g.root g.tx relayed.details.recipient relayed.details.amount,
        relayed.proved,
        relayed.to_bridge,
        relayed.mints,
        mint_args-root eth g.file g.root g.tx relayed.details.recipient relayed.details.amount,
        mint_args-lock_tx_hash eth g.file g.root g.tx relayed.details.recipient
            relayed.details.amount,
        mint_args-recipient eth g.file g.root g.tx relayed.details.recipient relayed.details.amount
            ∙ ap (λ q. eth.hex_to_address q.recipient) same
            ∙ is_eth.hex_to_address-address_hex eth_destination locked.is_address,
        mint_args-amount eth g.file g.root g.tx relayed.details.recipient relayed.details.amount
            ∙ ap (λ q. q.amount) same,
      )
