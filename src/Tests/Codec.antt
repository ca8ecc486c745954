-- ===== src/Tests/Codec.antt =====
-- A labgob that keeps what it encodes, and peers to run.
use cosi300a.Prelude.{ℕ, refl, Option, none, some, List, [], ℤ, false}
use native.Mathlib.Omega.{arith}
use cosi300a.Raft.Types.{
  PersistState, SnapshotRaft, Labgob, IsCodec, LogItem, Raft, command, dummy_node, NodeState,
}
use cosi300a.Raft.Persister.{Persister}

pub data Encoded (C D : Type 0) : Type 0 where
  nil : Encoded C D
  state_bytes : PersistState C → Encoded C D
  snapshot_bytes : SnapshotRaft D → Encoded C D

module _ {C D : Type 0} where
  abbrev pub state_of : Encoded C D → Option (PersistState C)
  state_of (Encoded.state_bytes s) = some s
  state_of _ = none

  abbrev pub snapshot_of : Encoded C D → Option (SnapshotRaft D)
  snapshot_of (Encoded.snapshot_bytes s) = some s
  snapshot_of _ = none

  abbrev pub size : Encoded C D → ℕ
  size Encoded.nil = 0
  size _ = 1

  abbrev pub codec : D → Labgob C D (Encoded C D)
  codec empty = record {
    encode_state = λ s. some (Encoded.state_bytes s);
    decode_state = state_of;
    encode_snapshot = λ s. some (Encoded.snapshot_bytes s);
    decode_snapshot = snapshot_of;
    nil = Encoded.nil;
    len = size;
    empty = empty;
  }

  pub codec-IsCodec : (empty : D) → IsCodec (codec empty)
  codec-IsCodec empty = record {
    state_encodes = λ s. (Encoded.state_bytes s, refl);
    state_decodes = λ s b e. ground (arith, e);
    state_nonempty = λ s b e. ground (arith, e);
    snapshot_encodes = λ s. (Encoded.snapshot_bytes s, refl);
    snapshot_decodes = λ s b e. ground (arith, e);
    snapshot_nonempty = λ s b e. ground (arith, e);
  }

-- The peers of the tests have commands and snapshots that are numbers.
abbrev pub Peer : Type 0
Peer = Raft ℕ ℕ (Encoded ℕ ℕ)

abbrev pub gob : Labgob ℕ ℕ (Encoded ℕ ℕ)
gob = codec 0

abbrev pub item : ℕ → ℕ → LogItem ℕ
item term index = record { command = command index; term = term; index = index }

abbrev pub Log : Type 0
Log = List (LogItem ℕ)

abbrev pub dummy : LogItem ℕ
dummy = record { command = dummy_node; term = 0; index = 0 }

abbrev pub saved : ℕ → ℤ → List (LogItem ℕ) → Persister (Encoded ℕ ℕ)
saved term vote log = record {
  raftstate = Encoded.state_bytes (record { term = term; vote_for = vote; log = log });
  snapshot = Encoded.nil;
}

-- A peer of a cluster of three, that has persisted its state.
abbrev pub peer : ℕ → NodeState → ℕ → ℤ → List (LogItem ℕ) → Peer
peer me role term vote log = record {
  locked = false;
  peers = 3;
  persister = saved term vote log;
  apply_ch = [];
  me = me;
  dead = false;
  state = role;
  current_term = term;
  vote_for = vote;
  log = log;
  commit_index = 0;
  last_applied = 0;
  next_index = [];
  match_index = [];
  election_time_stamp = 0;
  vote_count = 0;
}
