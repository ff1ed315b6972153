-- ===== src/Launch.antt =====
-- The package launch/process.
pub mod Suffrage
mod Tests
