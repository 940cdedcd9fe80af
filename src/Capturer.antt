-- ===== src/Capturer.antt =====
-- contracts/callback-capturer: an admin of the controller that records the callbacks.
pub mod Msg
pub mod Contract
