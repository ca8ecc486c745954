-- ===== src/Raft/Rounds.antt =====
-- Rounds of `startAppend` of src/raft/raft.go for one peer: the call, the peer's answer, and what the
-- leader makes of it.
pub mod Exchange
pub mod Round
pub mod Ends
