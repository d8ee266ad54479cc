-- ===== src/Circuit.antt =====
-- zk-bridge/pkg/circuits/bridge.go: the circuit `ZkBridgeCircuit`.
pub mod Api
pub mod Define
pub mod Unpack
pub mod Merkle
