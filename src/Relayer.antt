-- ===== src/Relayer.antt =====
-- zk-bridge/cmd/relayer/main.go: the hash of a WebSocket message, the retries of the query, and
-- `processEvent`. The WebSocket and the printing are left out.
pub mod Laws
pub mod Relays
pub mod Locked
pub mod Race
pub mod Announced
pub mod Main
use zk_cosmos_eth_bridge.Common.{
  ℕ, zero, suc, ◌+◌, Bool, true, false, ◌&&◌, Option, none, some, List, [], ◌∷◌, if◌then◌else◌,
  Bytes, codes, text_eq, Outcome, ok, err, panic, ◌>>=◌, or_err,
}
use zk_cosmos_eth_bridge.Common.Int.{ℤ, is_zero}
use zk_cosmos_eth_bridge.Rpc.Types.{TxResponse}
use zk_cosmos_eth_bridge.Rpc.Client.{Node, RpcError, new_cosmos_client, get_tx_details}
use zk_cosmos_eth_bridge.Rpc.EvmHash.{get_evm_hash}
use zk_cosmos_eth_bridge.Prover.Witness.{ProveError}
use zk_cosmos_eth_bridge.Prover.Generate.{ProofFile, Backend, Generated, generate_proof}
use zk_cosmos_eth_bridge.Prover.Lock.{
  EthCommon, EvmNode, LockError, LockDetails, fetch_lock_details,
}
use zk_cosmos_eth_bridge.Prover.Submit.{
  Transaction, SubmitError, EthNode, submit_proof, update_root,
}

-- The parts of a message that are read: the events, as the map's entries, and the hash.
pub record WsResponse : Type 0 where
  pub events : List (Bytes × List Bytes)
  pub tx_result_hash : Bytes

abbrev pub first_or_empty : List Bytes → Bytes
first_or_empty [] = []
first_or_empty (h ∷ hs) = h

-- `hashes[0]` of the entry at "tx.hash", where it has one.
unfoldable pub event_hash : List (Bytes × List Bytes) → Bytes
event_hash [] = []
event_hash ((key, hashes) ∷ events) =
    let rest = event_hash events in
    if text_eq key (codes "tx.hash") then first_or_empty hashes else rest

unfoldable pub message_hash : WsResponse → Bytes
unfolding event_hash
message_hash resp =
    if text_eq resp.tx_result_hash [] then event_hash resp.events else resp.tx_result_hash

-- The hashes that the reading loop starts `processEvent` for. A message that is no JSON is skipped,
-- and the loop ends with the messages.
unfoldable pub started : List (Option WsResponse) → List Bytes
unfolding message_hash
started [] = []
started (none ∷ messages) = started messages
started (some resp ∷ messages) =
    let rest = started messages in
    let tx_hash = message_hash resp in if text_eq tx_hash [] then rest else tx_hash ∷ rest

-- The addresses and keys of the environment.
pub record Settings : Type 0 where
  pub cosmos_ws_url : Bytes
  pub cosmos_rpc_url : Bytes
  pub cosmos_evm_rpc_url : Bytes
  pub bridge_source_addr : Bytes
  pub ethereum_rpc_url : Bytes
  pub bridge_dest_addr : Bytes
  pub relayer_priv_key : Bytes

-- `resp.Result.Hash != "" || resp.Hash != ""`
abbrev pub has_hash : TxResponse → Bool
has_hash resp =
    if text_eq resp.result.hash [] then (if text_eq resp.hash [] then false else true) else true

abbrev pub is_indexed : Outcome RpcError TxResponse → Bool
is_indexed (ok resp) = is_zero resp.error.code && has_hash resp
is_indexed (err e) = false
is_indexed panic = false

-- `GetTxDetails` gives a nil response with an error.
abbrev pub resp_of : Outcome RpcError TxResponse → Option TxResponse
resp_of (ok resp) = some resp
resp_of (err e) = none
resp_of panic = none

-- The loop with `n` attempts left, from attempt `i` on; `last` is the response that it holds.
unfoldable pub retry :
    (ℕ → Outcome RpcError TxResponse) → ℕ → ℕ → Option TxResponse → Option TxResponse
retry attempt zero i last = last
retry attempt (suc n) i last =
    let rest = retry attempt n (suc i) (resp_of (attempt i)) in
    if is_indexed (attempt i) then resp_of (attempt i) else rest

pub data Skipped : Type 0 where
  not_indexed no_evm_hash : Skipped
  no_lock : LockError → Skipped
  proving_failed : ProveError → Skipped

abbrev pub and_hash : Option TxResponse → Option TxResponse
and_hash none = none
and_hash (some resp) = if has_hash resp then some resp else none

-- A call's error as the reason to stop.
abbrev pub or_skip : {E A : Type 0} → Outcome E A → (E → Skipped) → Outcome Skipped A
or_skip (ok a) f = ok a
or_skip (err e) f = err (f e)
or_skip panic f = panic

-- What the run has before it turns to Ethereum.
pub record Proved : Type 0 where
  pub lock_details : LockDetails
  pub generated : Generated

-- How a call to Ethereum ended that did not panic: its error is printed.
pub data Attempt : Type 0 where
  sent : Transaction → Attempt
  failed : SubmitError → Attempt

pub record Relayed : Type 0 where
  pub synchronized : Attempt
  pub submitted : Attempt

abbrev pub attempted : Outcome SubmitError Transaction → Outcome Skipped Attempt
attempted (ok tx) = ok (sent tx)
attempted (err e) = ok (failed e)
attempted panic = panic

abbrev pub output_path : Bytes
output_path = codes "proof_event.json"

module _ {Proof : Type 0} (settings : Settings) (eth : EthCommon) (backend : Backend Proof) where
  -- The part up to the proof. The Cosmos node may answer each attempt, and the prover, differently.
  unfoldable pub prove_event : (ℕ → Node) → Node → EvmNode → Bytes → Outcome Skipped Proved
  prove_event nodes node evm tm_tx_hash = do
    let client = new_cosmos_client settings.cosmos_rpc_url
    resp ←
        or_err (and_hash (retry (λ i. get_tx_details (nodes i) client tm_tx_hash) 5 0 none))
          not_indexed
    let evm_tx_hash = get_evm_hash resp
    hash ← or_err (if text_eq evm_tx_hash [] then none else some evm_tx_hash) no_evm_hash
    details ←
        or_skip
          (fetch_lock_details eth evm settings.cosmos_evm_rpc_url settings.bridge_source_addr hash)
          no_lock
    generated ←
        or_skip (generate_proof backend node settings.cosmos_rpc_url tm_tx_hash output_path)
          proving_failed
    ok (record { lock_details = details; generated = generated })

module _ {Key : Type 0} (settings : Settings) (eth : EthCommon) where
  -- The rest: a root that is not updated does not stop the submission. `proof_data` is what the
  -- output path holds by then.
  unfoldable pub relay_proved : EthNode Key → Proved → Option ProofFile → Outcome Skipped Relayed
  relay_proved node p proof_data = do
    synchronized ← attempted (
        update_root eth node settings.ethereum_rpc_url settings.relayer_priv_key
          settings.bridge_dest_addr p.generated.root)
    submitted ← attempted (
        submit_proof eth node settings.ethereum_rpc_url settings.relayer_priv_key
          settings.bridge_dest_addr p.lock_details.recipient p.lock_details.amount p.generated.root
          p.generated.tx proof_data)
    ok (record { synchronized = synchronized; submitted = submitted })

module _ {Key Proof : Type 0} (settings : Settings) (eth : EthCommon)
    (backend : Backend Proof) where
  -- A run that no other run disturbs: the file is the one that it wrote.
  unfoldable pub process_event :
      (ℕ → Node) → Node → EvmNode → EthNode Key → Bytes → Outcome Skipped Relayed
  process_event nodes node evm eth_node tm_tx_hash = do
    p ← prove_event settings eth backend nodes node evm tm_tx_hash
    relay_proved settings eth eth_node p (some p.generated.file)
