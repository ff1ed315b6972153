-- ===== src/Util.antt =====
-- The package util: bytes of numbers, lists of checks, fixed trees and timers.
pub mod Bytes
pub mod Checks
pub mod FixedTree
pub mod Timers
mod Tests
mod TimersTests
mod TreeTests
