-- ===== src/Ws.antt =====
-- The WebSocket gateway (backend/internal/ws): the hub's clients and their send channels.
pub mod Hub
pub mod Map
pub mod Deliver
pub mod Route
pub mod Lifecycle
pub mod Shutdown
pub mod Node
pub mod Server
