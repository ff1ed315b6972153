-- ===== src/Lib.antt =====
-- The consensus core of mitum: how ballots are made, checked and counted to a voteproof, and how a
-- node moves between its states by voteproofs.
--
-- The nodes of a suffrage agree on each block in rounds. In a round every node signs a ballot for a
-- fact (INIT for the block before, then the proposal, then ACCEPT for the new block). A node checks
-- the ballots that come in, its ballot box counts those of one height, round and stage, and when a
-- fact has the votes of a threshold, the votes become a voteproof, which the next ballots carry.
--
-- - Common: helpers. Common.Dict is a Go map as an association list; MapRange stands for the order in
--   which the runtime ranges over a map. Common.Errors has the kinds of errors, without their texts.
--   Common.Overlap is the counting behind the overlap of two quorums.
-- - Util.Bytes: util/int.go, the bytes of fixed-width integers. Util.Checks: util/checker.go and
--   util/isvalid/check.go, lists of checks.
-- - Base.Stage, Base.VoteResult, Base.Threshold: base/votestage.go, base/vote.go, base/threshold.go.
--   Base.Majority: base/votecount.go, with FindMajority in Base.Majority and FindMajorityFromSlice in
--   Base.Majority.Slice.
-- - Base.Env: what comes from outside of the repository. Base.Address: base/string_address.go.
-- - Base.Fact: base/ballot/fact.go, init.go, accept.go, proposal.go and base/ballot_fact_sign.go.
--   Base.Voteproof: base/voteproof_v0.go and base/voteproof.go. Base.Ballot: base/ballot/seal.go and
--   the voteproof rules of base/ballot/init.go.
-- - Isaac.VoteRecords: isaac/voterecords.go; `vote` is VoteRecords.Vote, split at its early returns
--   into `add_ballot`, `vote_new`, `count_set` and `set_result`. Isaac.Ballotbox: isaac/ballotbox.go;
--   `vote`, `clean` and `empty` are its methods, and `load_vote_records` with `next_latest` is
--   loadVoteRecords.
-- - Isaac.BallotChecker: isaac/ballot_checker.go and isaac/voteproof_checker.go, with the list of
--   launch/process/hook_network_handlers.go. Isaac.ProposalChecker: isaac/proposal_checker.go, with
--   the lists of states/basic/states.go.
-- - Base.Suffrage: base/suffrage.go. Launch.Suffrage: launch/process/suffrage_base.go,
--   suffrage_fixed.go and suffrage_roundrobin.go; `acting` is BaseSuffrage.Acting with its cache, and
--   `fixed_elect` and `roundrobin_elect` are the elections.
-- - Base.State: base/state.go. States.SwitchContext: states/basic/context.go.
--   States.VoteproofChecker: states/basic/voteproof_checker.go. States.Node: states/basic/states.go,
--   with the last voteproofs and the processing of a voteproof; States.Node.Switch: the switch of
--   states, `process_switch_states`, and one turn of `watch`.
-- - Util.FixedTree: util/tree/fixedtree.go, with Generator for the generator and Proof for the making
--   of a proof.
-- - Isaac.SealChecker: isaac/seal_checker.go, with handlerNewSeal of
--   launch/process/hook_network_handlers.go, which hands a seal on.
-- - Isaac.BlockChecker: isaac/block_checker.go.
-- - Util.Timers: util/localtime/timers.go.
-- - Samples: a small network, on which the Tests modules apply the theorems.
--
-- A state is a record, and an operation is a function from the state before to the state after, with
-- its error where it has one; clocks, databases and the suffrage are arguments. Hashes and addresses
-- are their texts. Numbers are natural numbers: a counter of votes is added up modulo 2^64, and a
-- theorem that needs it asks for fewer votes than that; heights are integers, whose sums and
-- differences wrap around to int64 in the rules on ballots and voteproofs. A threshold is below 2^63,
-- and two addresses are equal if their texts are. A function that gives an error may be given back a
-- request to switch the state (StepError), as in the source. Loops are over lists, but for three:
-- `process_switch_states` takes a number of rounds, for which the source has no bound, and says so
-- where they run out; `climb` has the room for parents that the source has; `fill` counts the places
-- down. The timers that a call takes out of the map are kept in a list of their own, to tell what has
-- become of them.
--
-- Parameters: SHA-256, base58, the text of a time and the verification of a signature (Env), float64
-- arithmetic on threshold ratios (RatioOps), the order of maps (MapRange), the database and the
-- election of a proposer (ProposalStore), the policy, the pool of nodes and what other nodes answer
-- (LocalView), a timer (TimerOps), seals and their cache (Seal, SealCache, with SealCacheLaws), the
-- cache of a suffrage (LruCache, with CacheLaws) and its sorting, the logarithms and powers of
-- float64 (TreeEnv, with FloatLaws: right up to 2^47), and the states of a node (StateHandlers).
-- No theorem assumes that SHA-256 has no collision: one on hashes has a collision as one of its
-- cases.
--
-- Not modelled: the seal around a ballot, the codecs, logging, locks (a call of the box or of the
-- records is one step), the pool of records, what the single states of a node do, what the states do
-- with a seal that is handed on to them, the handover of a node, its storage and its network, the
-- making of proposals, the syncer, and the check of a proof of a fixed tree.
pub mod Common
pub mod Util
pub mod Base
pub mod Isaac
pub mod States
pub mod Launch
pub mod Samples
