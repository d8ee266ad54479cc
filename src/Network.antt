-- ===== src/Network.antt =====
-- evmd/tests/network: the network's construction and end, the waiting for heights, and the box
-- around the mnemonic.
pub mod Wait
pub mod Box
pub mod Pool
pub mod New
pub mod Genesis
pub mod Start
pub mod Life
