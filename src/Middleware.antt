-- ===== src/Middleware.antt =====
-- internal/middleware.
pub mod Auth
pub mod RateLimit
pub mod Scope
