-- ===== src/Ws.antt =====
-- The WebSocket hub and its clients, backend/internal/ws.
pub mod Hub
pub mod Connections
