-- ===== src/Host.antt =====
-- contracts/simple-ica-host: the contract on the receiving chain.
pub mod Msg
pub mod State
pub mod Contract
pub mod Packet
pub mod Runs
pub mod Spec
