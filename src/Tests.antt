-- ===== src/Tests.antt =====
-- Runs of the model on concrete inputs, and the theorems on them.
pub mod Data
pub mod Circuit
pub mod Rpc
pub mod Prover
pub mod Contracts
pub mod Relayer
pub mod Testnet
pub mod Export
pub mod Network
pub mod Overrides
pub mod Genesis
pub mod Submission
pub mod Start
pub mod Commands
pub mod Root
pub mod Blocks
pub mod App
pub mod Setup
pub mod Monitor
