-- ===== src/Raft/Cluster.antt =====
-- Several peers of src/raft/raft.go as one system, and its elections.
pub mod Tally
pub mod Quiet
pub mod Steps
pub mod Leaders
pub mod Elects
pub mod Candidate
pub mod Safety
pub mod Ever
