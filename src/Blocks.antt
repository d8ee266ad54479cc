-- ===== src/Blocks.antt =====
-- evmd/testutil/abci.go: delivering and checking transactions, and committing blocks, on an application
-- with a state of its own.
pub mod Deliver
pub mod Commit
pub mod Proposal
use zk_cosmos_eth_bridge.Common.{ℕ, Bool, Option, none, some, List, Bytes}
use zk_cosmos_eth_bridge.Common.Int.{ℤ}

-- Of a response to a transaction there are the parts that are read.
pub record Attribute : Type 0 where
  pub key : Bytes
  pub value : Bytes

pub record Event : Type 0 where
  pub kind : Bytes
  pub attributes : List Attribute

pub record TxResult : Type 0 where
  pub code : ℕ
  pub log : Bytes
  pub events : List Event

pub record BlockRequest : Type 0 where
  pub height : ℤ
  pub txs : List Bytes

pub record BlockResult (Updates : Type 0) : Type 0 where
  pub tx_results : List TxResult
  pub validator_updates : Updates

-- A block's header; the time is in nanoseconds.
pub record Header : Type 0 where
  pub height : ℤ
  pub time : ℤ
  pub app_hash : Bytes
  pub validators_hash : Bytes
  pub next_validators_hash : Bytes

-- A context: the header, the settings that are named, and the others.
pub record Context (X : Type 0) : Type 0 where
  pub block_header : Header
  pub min_gas_prices : X
  pub event_manager : X
  pub kv_gas_config : X
  pub transient_kv_gas_config : X
  pub others : X

-- The application and the types of CometBFT. A call changes the state whether it fails or not; a
-- failing call gives none or false.
pub record EvmApp (St X Vals Updates Changes : Type 0) : Type 0 where
  pub finalize_block : BlockRequest → St → St × Option (BlockResult Updates)
  pub check_tx : Bytes → St → St × Option TxResult
  pub end_blocker : Context X → St → St × Bool
  pub begin_blocker : Context X → St → St × Bool
  pub commit : St → St × Bool
  pub last_commit_hash : St → Bytes
  pub new_context : Header → St → Context X
  pub hash : Vals → Bytes
  pub to_changes : Updates → Option Changes
  pub update_with_change_set : Changes → Vals → Option Vals
