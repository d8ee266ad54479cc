-- ===== src/Rpc/Client.antt =====
-- `CosmosClient` and `GetTxDetails` of zk-bridge/pkg/rpc/cosmos.go.
use zk_cosmos_eth_bridge.Common.{
  Option, ◌++◌, Bytes, codes, trim_prefix, Outcome, ok, ◌>>=◌, or_err,
}
use zk_cosmos_eth_bridge.Rpc.Types.{TxResponse}

pub record CosmosClient : Type 0 where
  pub rpc_url : Bytes

unfoldable pub new_cosmos_client : Bytes → CosmosClient
new_cosmos_client url = record { rpc_url = url }

-- What the node answers to one request. `get` is `none` where the request fails, and `some none`
-- where the body cannot be read; `unmarshal` is `json.Unmarshal` into an empty `TxResponse`.
pub record Node : Type 0 where
  pub get : Bytes → Option (Option Bytes)
  pub unmarshal : Bytes → Option TxResponse

pub data RpcError : Type 0 where
  request_failed body_unreadable bad_json : RpcError

abbrev tx_url : CosmosClient → Bytes → Bytes
tx_url c tx_hash =
    c.rpc_url ++ (codes "/tx?hash=0x" ++ (trim_prefix tx_hash (codes "0x") ++ codes "&prove=true"))

unfoldable pub get_tx_details : Node → CosmosClient → Bytes → Outcome RpcError TxResponse
get_tx_details node c tx_hash = do
  resp ← or_err (node.get (tx_url c tx_hash)) request_failed
  body ← or_err resp body_unreadable
  tx_resp ← or_err (node.unmarshal body) bad_json
  ok (record tx_resp { raw = body })
