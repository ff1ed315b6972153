-- ===== src/Base.antt =====
-- The package base: stages, results, thresholds, the majority rule, the voteproof.
pub mod Stage
pub mod VoteResult
pub mod Threshold
pub mod Majority
pub mod Env
pub mod Address
pub mod Fact
pub mod Voteproof
pub mod Ballot
pub mod Suffrage
pub mod State
mod Tests
