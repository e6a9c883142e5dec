-- ===== src/Repository.antt =====
-- The repositories of backend/internal/repository over the tables of backend/migrations.
pub mod Query
pub mod Interactions
pub mod Gamification
pub mod Messages
pub mod Reports
pub mod Reactions
pub mod Users
pub mod Writers
pub mod Authorship
pub mod Soundness
pub mod Growth
pub mod Interleaving
