-- ===== src/RateLimit.antt =====
-- backend/app/rate_limit.py: the limiters.
pub mod Memory
pub mod Keys
pub mod Bounded
pub mod Known
pub mod Idle
pub mod Window
pub mod Redis
pub mod Fallback
pub mod Proxy
mod Tests
