-- ===== src/Kvraft.antt =====
-- src/kvraft: the replicated key-value server and its clerk, and src/models/kv.go, the model that its
-- histories are checked against.
pub mod Types
pub mod Server
pub mod Requests
pub mod Clerk
pub mod Model
pub mod Partition
pub mod Once
pub mod Refine
pub mod CatchUp
pub mod Serve
pub mod Replies
pub mod Answers
pub mod Restart
pub mod Start
pub mod Threads
