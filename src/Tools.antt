-- ===== src/Tools.antt =====
-- pkg/tools: the helpers that the other packages share.
mod Tests
pub mod LimitedList
pub mod Auth
pub mod Record
pub mod Set
pub mod Bash
