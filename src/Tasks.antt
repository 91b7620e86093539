-- ===== src/Tasks.antt =====
-- The tasks that threads run for the connections.
pub mod Pool
mod Tests
