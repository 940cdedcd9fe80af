-- ===== src/Controller.antt =====
-- contracts/simple-ica-controller: the contract on the sending chain.
pub mod Msg
pub mod State
pub mod Contract
pub mod Ibc
pub mod Spec
