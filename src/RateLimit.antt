-- ===== src/RateLimit.antt =====
-- The in-memory rate limiter of backend/app/middleware/rate_limiter.py.
pub mod Entry
pub mod Client
pub mod Limiter
pub mod Middleware
mod Tests
