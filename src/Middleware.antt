-- ===== src/Middleware.antt =====
-- The HTTP middlewares of backend/internal/middleware.
pub mod Auth
pub mod RateLimit
pub mod AntiSpam
