-- ===== src/Rpc.antt =====
-- zk-bridge/pkg/rpc/cosmos.go: the client of the Tendermint RPC.
pub mod Types
pub mod Client
pub mod Hash
pub mod EvmHash
