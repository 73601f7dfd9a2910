-- ===== src/Monitor.antt =====
-- monitor: the loop that watches the heartbeats.
mod Tests
pub mod Checker
pub mod Loop
pub mod Events
