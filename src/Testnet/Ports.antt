-- ===== src/Testnet/Ports.antt =====
-- The ports that `initTestnetFiles` and `collectGenFiles` of evmd/cmd/evmd/cmd/testnet.go give to the
-- validators.
use zk_cosmos_eth_bridge.Common.{
  ℕ, ◌+◌, ◌*◌, ◌<◌, ◌≡◌, Bool, true, false, Option, none, some, ◌++◌, arith, Bytes, codes,
}
use zk_cosmos_eth_bridge.Codec.Decimal.{decimal}

pub data Service : Type 0 where
  p2p rpc api grpc json_rpc json_rpc_ws json_rpc_metrics geth_metrics : Service

-- The ports of validator `i` where all run on one machine.
unfoldable pub single_host_port : Service → ℕ → ℕ
single_host_port p2p i = 16656 + i
single_host_port rpc i = 26657 + i
single_host_port api i = 1317 + i
single_host_port grpc i = 9090 + i
single_host_port json_rpc i = 8545 + i * 10
single_host_port json_rpc_ws i = 8546 + i * 10
single_host_port json_rpc_metrics i = 6065 + i * 10
single_host_port geth_metrics i = 8100 + i * 10

-- The addresses in validator `i`'s configuration that the loops set; none is left as it was.
pub record NodeSettings : Type 0 where
  pub api_address : Option Bytes
  pub grpc_address : Option Bytes
  pub json_rpc_address : Option Bytes
  pub json_rpc_ws_address : Option Bytes
  pub metrics_address : Option Bytes
  pub geth_metrics_address : Option Bytes
  pub rpc_listen_address : Bytes
  pub p2p_listen_address : Option Bytes

abbrev at_port : Bytes → ℕ → Bytes
at_port host port = host ++ decimal port

-- After both loops: `collectGenFiles` sets the RPC address once more on a single machine.
unfoldable pub node_settings : Bool → ℕ → NodeSettings
unfolding single_host_port
node_settings true i = record {
  api_address = some (at_port (codes "tcp://0.0.0.0:") (single_host_port api i));
  grpc_address = some (at_port (codes "0.0.0.0:") (single_host_port grpc i));
  json_rpc_address = some (at_port (codes "127.0.0.1:") (single_host_port json_rpc i));
  json_rpc_ws_address = some (at_port (codes "127.0.0.1:") (single_host_port json_rpc_ws i));
  metrics_address = some (at_port (codes "127.0.0.1:") (single_host_port json_rpc_metrics i));
  geth_metrics_address = some (at_port (codes "127.0.0.1:") (single_host_port geth_metrics i));
  rpc_listen_address = at_port (codes "tcp://0.0.0.0:") (single_host_port rpc i);
  p2p_listen_address = some (at_port (codes "tcp://0.0.0.0:") (single_host_port p2p i));
}
node_settings false i = record {
  api_address = none;
  grpc_address = none;
  json_rpc_address = some (codes "0.0.0.0:8545");
  json_rpc_ws_address = some (codes "0.0.0.0:8546");
  metrics_address = none;
  geth_metrics_address = none;
  rpc_listen_address = codes "tcp://:26657";
  p2p_listen_address = none;
}

-- Of up to 55 validators on one machine, two services have the same port only if they are the same
-- service of the same validator.
pub single_host_port_injective :
    (s t : Service) (i j : ℕ)
    → i < 55
    → j < 55
    → single_host_port s i ≡ single_host_port t j
    → (s ≡ t) × (i ≡ j)
unfolding single_host_port
single_host_port_injective s t i j hi hj h = ground (arith, h)
