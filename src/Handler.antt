-- ===== src/Handler.antt =====
-- The handlers of backend/internal/handler: each reads the request, calls a service and chooses the
-- answer.
pub mod Replies
pub mod Accounts
pub mod Messages
pub mod Interactions
pub mod Search
pub mod Statuses
