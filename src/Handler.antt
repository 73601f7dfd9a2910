-- ===== src/Handler.antt =====
-- web/handler: what the agent does on a request of the server.
mod Tests
pub mod Commands
pub mod Chaosblade
pub mod Agent
pub mod Litmus
