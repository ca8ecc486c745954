-- ===== src/Lib.antt =====
-- A model of the Raft library, the replicated key-value server and the shard master of this
-- repository, and what is proved of it.
--
-- The program has four parts. src/raft is a Raft peer: a log, elections, replication, a
-- persister, and snapshots that cut the log. src/kvraft is a key-value server on top of it:
-- requests are appended to the log by `Start`, and the server applies what the peer sends to its
-- channel. src/shardmaster is a second such service, which deals shards out to replica groups and
-- keeps a history of configurations. src/models has the sequential model of one key, against
-- which the tests check histories. The clerks of the two services call all servers until one
-- answers.
--
-- Which file models what:
--   Prelude            lists, integers, maps, panics and sorting, which the other parts share
--   Raft/Types         the structs of src/raft/raft.go
--   Raft/Persister     src/raft/persister.go
--   Raft/Log           the accessors of the log, findMatch and getMajorityCount
--   Raft/Node          persist, readPersist, the changes of role, Start, GetState and Make
--   Raft/Vote          RequestVote, and startElection with the handling of a reply
--   Raft/Append        AppendEntries, startAppend with the handling of a reply, sendCommitMessage
--   Raft/Snapshot      InstallSnapshot, startInstallSnapshot, SaveSnapshot, GetKVSnapshotByte
--   Raft/Contiguous, Accessors, Deliver, Replicate, Follow, Majority, Commit, Agree, Compact
--                      theorems on the log, the messages, the calls and the snapshots
--   Raft/Run           runs of a peer with crashes, and what every step keeps
--   Raft/Cluster       several peers and the votes among them, and elections
--   Raft/Matching      several peers with the calls among them, and the matching of their logs
--   Raft/Rounds        rounds of startAppend with one peer
--   Raft/Wins          a campaign that a majority supports
--   Raft/Bounds        a leader's time in office
--   Raft/Tester        src/raft/config.go: what the tests check of a cluster, on any cluster
--   Kvraft/Types, Server, Requests, Clerk, Model, Partition
--                      src/kvraft and src/models/kv.go
--   Kvraft/Once, Refine, CatchUp, Serve, Replies, Answers, Restart, Start, Threads
--                      theorems on the server and the clerk
--   Shardmaster/Types, Shards, Server, Requests, Clerk
--                      src/shardmaster
--   Shardmaster/Deal, Served, Order, Leave, Configs, History, Once, Serve
--                      theorems on the master
--   Tests              the theorems at concrete inputs
--
-- How code and model correspond. What runs between lock and unlock is one action: a function from
-- the state to a result and a new state, or to a panic. A loop of a background thread is modelled
-- by one round; the clock, the random timeout and the replies of calls are arguments. A request
-- that waits for its command is the part before the wait, and a function of the list of states
-- that it finds until its time is over. The channel to the service is the list of all that was
-- sent. Names are those of the source in this language's spelling.
--
-- A cluster is a function from peer numbers to peers, with the votes that were granted and those
-- that have been counted. Any call may reach any peer at any time; of the network it is assumed
-- only that the reply to a call for a vote is handled at most once, as labrpc's `Call` returns
-- once and a candidate calls each peer once in a term. A network adds to a cluster the lists of
-- all calls of AppendEntries and InstallSnapshot that leaders have sent: a call that arrives is
-- one of them, for the peer that it arrives at, and may arrive again; replies to a leader may say
-- anything. The state of the network holds no more than that: which entries were ever created is
-- part of the invariant, not of the state.
--
-- The threads of a server are a state, with a list of those that were started to save a snapshot,
-- and a step relation: any of them may move next. A thread that saves a snapshot has two steps,
-- SaveSnapshot and then the release of the snapshot lock. The loop that takes messages reads the
-- length of the peer's log without the peer's mutex, so it may read any length there. What else a
-- server does is stated over its loop alone.
--
-- The peer's mutex is a field of its state. Since an action runs between lock and unlock, the two
-- are written out only in GetKVSnapshotByte, which has a branch that returns without unlocking.
--
-- A round of startAppend with one peer is the leader's call, the peer's answer and the leader's
-- handling of it, one after the other; a number of rounds is a recursion on that number, with a
-- theorem on how many are enough.
--
-- Bounds. Loops over slices and ranges are recursion on the list or on the number of rounds that
-- are left, so that none needs fuel but the rounds of startAppend, for which the number that is
-- enough is part of a theorem. Terms, indices, peer and group numbers are natural numbers; where
-- the source stores or computes -1 the model has integers. Go's 64-bit wrap-around is not
-- modelled, since each number counts events of a run.
--
-- Parameters. labgob and the services' snapshot encoders are records of functions that may fail.
-- Theorems that need it assume that encoding succeeds, is not empty, and decodes to the same
-- value; Tests has an instance. UUIDs are their canonical strings, by which the servers know the
-- clerks.
--
-- Not modelled: labrpc and labgob, which the program only calls; porcupine, the network of the
-- tests and the harnesses of the two services; debug prints, but for the configuration that
-- checkApplyCommand of the shard master reads for one, which may panic; the killed tests of the
-- loops, which end a thread between two rounds; electionTimeout of a peer, which is set and never
-- read. Maps and slices are values: Go shares them by reference, so what CopyGroupMap copies is
-- modelled, and that nobody else holds the copy is not. The mutexes of the servers and of the
-- persister are not fields.
pub mod Prelude
pub mod Raft
pub mod Kvraft
pub mod Shardmaster
pub mod Tests
