-- ===== src/Raft/Matching.antt =====
-- Several peers of src/raft/raft.go with the calls among them, and the matching of their logs.
pub mod Chain
pub mod Match
pub mod Network
pub mod Traced
pub mod Continues
pub mod Sends
pub mod Invariant
pub mod Moves
pub mod Keeps
pub mod Creates
pub mod Steps
pub mod Safety
