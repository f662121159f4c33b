-- ===== src/Program.antt =====
-- The program as a whole: its parts as sequences of writes to the database that they share.
pub mod Writes
pub mod Schema
pub mod Steps
pub mod Sync
pub mod Runs
pub mod Sends
pub mod Requests
pub mod Calls
pub mod History
pub mod Memory
