-- ===== src/Gateway.antt =====
-- speech_gateway/: the full-duplex session and the failure policy.
pub mod Duplex
pub mod FailurePolicy
