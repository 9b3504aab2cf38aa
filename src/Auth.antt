-- ===== src/Auth.antt =====
-- Who a request comes from: src/utils/auth.utils.ts, src/middleware/auth.middleware.ts,
-- src/middleware/sse-auth.middleware.ts and the handshake of src/services/websocket.service.ts.
-- The JWT library, bcrypt and the table of clients are parameters.
pub mod Tokens
pub mod Clients
pub mod Middleware
pub mod Handshake
pub mod Sound
pub mod Agreement
pub mod Routes
pub mod Connections
