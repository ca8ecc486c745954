-- ===== src/Raft/Run.antt =====
-- Runs of one peer of src/raft/raft.go.
pub mod Defs
pub mod Effects
pub mod Votes
pub mod Durable
pub mod Steps
pub mod OneVote
