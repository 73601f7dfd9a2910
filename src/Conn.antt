-- ===== src/Conn.antt =====
-- conn: the clients of the server.
mod Tests
pub mod Heartbeat
pub mod Connect
pub mod Sender
pub mod Reports
pub mod Metric
pub mod Start
