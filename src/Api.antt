-- ===== src/Api.antt =====
-- frontend/src/api: the data that the REST and WebSocket contracts carry, the HTTP client with its
-- endpoint wrappers, and the WebSocket subscription.
pub mod Types
pub mod Client
pub mod Endpoints
pub mod Socket
