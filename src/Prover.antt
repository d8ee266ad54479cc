-- ===== src/Prover.antt =====
-- zk-bridge/pkg/prover/prover.go: from a transaction hash to a submitted proof.
pub mod Witness
pub mod Generate
pub mod Lock
pub mod Submit
