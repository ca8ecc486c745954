-- ===== src/Tests.antt =====
-- The theorems at concrete inputs.
mod Codec
mod Votes
mod Election
mod Tester
mod Matching
mod Logs
mod Snapshots
mod KvServers
mod Kv
mod Partition
mod Crash
mod Threads
mod Rounds
mod Master
mod Serving
