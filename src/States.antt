-- ===== src/States.antt =====
-- The package states/basic: the states of a node.
pub mod VoteproofChecker
pub mod SwitchContext
pub mod Node
mod Tests
