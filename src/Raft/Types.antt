-- ===== src/Raft/Types.antt =====
-- The data of src/raft/raft.go. `C` is the type of the service's commands, `D` of the bytes of its
-- snapshots and `B` of the bytes that labgob writes. Terms, log indices and peer numbers are
-- natural numbers; the fields in which the source stores -1 are integers.
use cosi300a.Prelude.{ℕ, ◌≡◌, Bool, true, false, Option, some, List, ℤ, ltb}
use cosi300a.Raft.Persister.{Persister}

-- `interface{}`, as the entries of the log use it.
pub data Interface (C : Type 0) : Type 0 where
  command : C → Interface C
  dummy_node : Interface C

-- A message with `CommandValid` true carries the interface of a log entry, one with false the
-- bytes of a snapshot.
pub data ApplyMsg (C D : Type 0) : Type 0 where
  entry : (command : Interface C) (command_index : ℕ) (term : ℕ) → ApplyMsg C D
  snapshot : (command : D) (command_index : ℤ) (term : ℤ) → ApplyMsg C D

pub record LogItem (C : Type 0) : Type 0 where
  pub command : Interface C
  pub term : ℕ
  pub index : ℕ

pub record PersistState (C : Type 0) : Type 0 where
  pub term : ℕ
  pub vote_for : ℤ
  pub log : List (LogItem C)

pub record SnapshotRaft (D : Type 0) : Type 0 where
  pub state_machine_state : D
  pub last_included_index : ℕ
  pub last_included_term : ℕ

pub record InstallSnapshotArg (D : Type 0) : Type 0 where
  pub term : ℕ
  pub leader_id : ℕ
  pub last_included_index : ℕ
  pub last_included_term : ℕ
  pub payload : D

pub record InstallSnapshotReply : Type 0 where
  pub term : ℕ

pub record AppendEntriesArgs (C : Type 0) : Type 0 where
  pub term : ℕ
  pub leader_id : ℕ
  pub prev_log_index : ℕ
  pub prev_log_term : ℕ
  pub entries : List (LogItem C)
  pub leader_commit : ℕ

pub record AppendEntriesReply : Type 0 where
  pub term : ℕ
  pub success : Bool

pub record RequestVoteArgs : Type 0 where
  pub term : ℕ
  pub candidate_id : ℕ
  pub last_log_index : ℕ
  pub last_log_term : ℕ

pub record RequestVoteReply : Type 0 where
  pub term : ℕ
  pub vote_granted : Bool

pub data NodeState : Type 0 where
  follower candidate leader : NodeState

abbrev pub is_leader : NodeState → Bool
is_leader leader = true
is_leader _ = false

-- A peer. `peers` is their number; `apply_ch` is everything sent to the channel so far, the latest
-- message last; `locked` is whether the mutex is held, `dead` what `Kill` sets. `electionTimeout`, which
-- nothing reads, is left out. An operation that takes the mutex and gives it back is one action, in
-- which the two calls are not written out.
pub record Raft (C D B : Type 0) : Type 0 where
  pub locked : Bool
  pub peers : ℕ
  pub persister : Persister B
  pub apply_ch : List (ApplyMsg C D)
  pub me : ℕ
  pub dead : Bool
  pub state : NodeState
  pub current_term : ℕ
  pub vote_for : ℤ
  pub log : List (LogItem C)
  pub commit_index : ℕ
  pub last_applied : ℕ
  pub next_index : List ℕ
  pub match_index : List ℕ
  pub election_time_stamp : ℕ
  pub vote_count : ℕ

-- labgob, which the source only calls: encoding may fail, and so may decoding.
pub record Labgob (C D B : Type 0) : Type 0 where
  pub encode_state : PersistState C → Option B
  pub decode_state : B → Option (PersistState C)
  pub encode_snapshot : SnapshotRaft D → Option B
  pub decode_snapshot : B → Option (SnapshotRaft D)
  pub nil : B
  pub len : B → ℕ
  pub empty : D

-- What a caller of labgob relies on: encoding the program's own types succeeds, what is encoded
-- decodes to the same value, and no encoding is empty.
pub record IsCodec {C D B : Type 0} (g : Labgob C D B) : Type 0 where
  pub state_encodes : (s : PersistState C) → (b : B) × (g.encode_state s ≡ some b)
  pub state_decodes :
      (s : PersistState C) (b : B) → g.encode_state s ≡ some b → g.decode_state b ≡ some s
  pub state_nonempty :
      (s : PersistState C) (b : B) → g.encode_state s ≡ some b → ltb 0 (g.len b) ≡ true
  pub snapshot_encodes : (s : SnapshotRaft D) → (b : B) × (g.encode_snapshot s ≡ some b)
  pub snapshot_decodes :
      (s : SnapshotRaft D) (b : B) → g.encode_snapshot s ≡ some b → g.decode_snapshot b ≡ some s
  pub snapshot_nonempty :
      (s : SnapshotRaft D) (b : B) → g.encode_snapshot s ≡ some b → ltb 0 (g.len b) ≡ true
