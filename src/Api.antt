-- ===== src/Api.antt =====
-- The HTTP and WebSocket handlers (backend/internal/api).
pub mod Http
pub mod Middleware
pub mod Session
pub mod Password
pub mod Prekeys
pub mod Chat
pub mod AdminSync
pub mod Media
pub mod AdminAuth
pub mod AdminUsers
pub mod WhatsApp
pub mod AdminViews
pub mod AuditCsv
pub mod Router
pub mod System
