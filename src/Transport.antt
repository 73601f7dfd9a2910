-- ===== src/Transport.antt =====
-- transport: the requests and responses that the agent exchanges with the server.
mod Tests
pub mod Samples
pub mod Json
pub mod Format
pub mod Response
pub mod Request
pub mod Uri
pub mod Interceptor
pub mod Client
pub mod Http
