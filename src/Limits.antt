-- ===== src/Limits.antt =====
-- The limits on requests: auth/services/rate-limit.service.ts and throttle.
pub mod RateLimit
pub mod Throttle
