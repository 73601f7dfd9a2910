-- ===== src/Web.antt =====
-- web/api and web/server: from an HTTP request to a handler, and back.
mod Tests
pub mod Api
pub mod Admits
pub mod Register
