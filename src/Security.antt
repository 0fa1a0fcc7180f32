-- ===== src/Security.antt =====
-- security/: the confirmation gate, the rate limiter, output validation, and the access checks.
pub mod Confirmation
pub mod RateLimit
pub mod OutputValidation
pub mod Auth
