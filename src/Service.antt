-- ===== src/Service.antt =====
-- The services of backend/internal/service, with the cache of backend/internal/cache.
pub mod Auth
pub mod Accounts
pub mod Cache
pub mod Messages
pub mod Moderation
pub mod State
pub mod Publishing
pub mod Interactions
pub mod Search
