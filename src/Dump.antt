-- ===== src/Dump.antt =====
-- The program of docs/parse_and_dump.cpp.
pub mod Comments
pub mod Main
pub mod Runs
mod Tests
