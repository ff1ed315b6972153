-- ===== src/Isaac.antt =====
-- The package isaac: the collection of votes, and the checks of what comes in from other nodes.
pub mod VoteRecords
pub mod Ballotbox
pub mod BallotChecker
pub mod ProposalChecker
pub mod SealChecker
pub mod BlockChecker
mod Tests
mod SealTests
mod BlockTests
mod CheckerTests
