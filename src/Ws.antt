-- ===== src/Ws.antt =====
-- internal/transport/ws: the hub, which connects WebSocket clients to the session's manager.
pub mod Protocol
pub mod Registry
pub mod Route
pub mod Hub
pub mod Handler
