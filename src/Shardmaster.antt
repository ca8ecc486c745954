-- ===== src/Shardmaster.antt =====
-- src/shardmaster: the replicated master of the shards, and its clerk.
pub mod Types
pub mod Shards
pub mod Server
pub mod Requests
pub mod Clerk
pub mod Deal
pub mod Served
pub mod Order
pub mod Configs
pub mod History
pub mod Once
pub mod Serve
pub mod Leave
