-- ===== src/SimpleIca.antt =====
-- packages/simple-ica: the packets, the acknowledgements and the checks that both contracts share.
pub mod Types
pub mod Checks
pub mod Ack
