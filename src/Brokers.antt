-- ===== src/Brokers.antt =====
-- backend/app/brokers: the rate limiter that all workers share.
pub mod RateLimiter
pub mod Examples
