-- ===== src/Rpc/Types.antt =====
-- The response types of zk-bridge/pkg/rpc/cosmos.go.
use zk_cosmos_eth_bridge.Common.{List, Bytes}
use zk_cosmos_eth_bridge.Common.Int.{ℤ}

pub record Attribute : Type 0 where
  pub key : Bytes
  pub value : Bytes

pub record Event : Type 0 where
  pub type : Bytes
  pub attributes : List Attribute

pub record TxResult : Type 0 where
  pub code : ℤ
  pub events : List Event

-- The Merkle proof of the transaction: `Result.Proof.Proof`.
pub record MerkleProof : Type 0 where
  pub total : Bytes
  pub index : Bytes
  pub leaf_hash : Bytes
  pub aunts : List Bytes

-- `Result.Proof`. Its untyped field `Data` is read by nothing, and left out.
pub record ResultProof : Type 0 where
  pub root_hash : Bytes
  pub proof : MerkleProof

pub record ResultData : Type 0 where
  pub hash : Bytes
  pub tx_hash : Bytes
  pub height : Bytes
  pub index : ℤ
  pub tx_result : TxResult
  pub events : List Event
  pub proof : ResultProof

pub record ErrorData : Type 0 where
  pub code : ℤ
  pub message : Bytes
  pub error_data : Bytes

pub record TxResponse : Type 0 where
  pub jsonrpc : Bytes
  pub id : ℤ
  pub result : ResultData
  pub error : ErrorData
  pub hash : Bytes
  pub tx_hash : Bytes
  pub events : List Event
  pub raw : Bytes
