-- ===== src/Raft.antt =====
-- src/raft/raft.go and src/raft/persister.go: one Raft peer.
pub mod Types
pub mod Persister
pub mod Log
pub mod Node
pub mod Vote
pub mod Append
pub mod Snapshot
pub mod Contiguous
pub mod Accessors
pub mod Deliver
pub mod Replicate
pub mod Follow
pub mod Majority
pub mod Commit
pub mod Agree
pub mod Compact
pub mod Run
pub mod Cluster
pub mod Matching
pub mod Rounds
pub mod Wins
pub mod Bounds
pub mod Tester
