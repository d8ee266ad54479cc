-- ===== src/Contracts.antt =====
-- zk-bridge/contracts: the two contracts that the relayer connects.
pub mod Source
pub mod Destination
