-- ===== src/Config.antt =====
-- The configuration: docs/config.
pub mod Data
pub mod Words
pub mod Line
pub mod Frame
mod Tests
