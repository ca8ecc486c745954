-- ===== src/Raft/Bounds.antt =====
-- A leader of src/raft/raft.go: its matches, its commit position and its calls stay within its log.
pub mod Keeps
pub mod Run
