-- ===== src/Testnet.antt =====
-- evmd/cmd/evmd/cmd/testnet.go: the powers, the addresses and the ports of a testnet's validators.
pub mod Powers
pub mod Address
pub mod Ports
pub mod Init
pub mod Collect
pub mod Start
pub mod Flags
pub mod Command
