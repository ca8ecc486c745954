-- ===== src/Raft/Persister.antt =====
-- src/raft/persister.go: what survives a crash. A method runs under the persister's own lock, so it
-- is one step.
use cosi300a.Prelude.{ℕ}

pub record Persister (B : Type 0) : Type 0 where
  pub raftstate : B
  pub snapshot : B

module _ {B : Type 0} where
  -- The fields of a new struct are nil slices.
  abbrev pub make_persister : B → Persister B
  make_persister nil = record { raftstate = nil; snapshot = nil }

  unfoldable pub copy : Persister B → Persister B
  copy ps = record { raftstate = ps.raftstate; snapshot = ps.snapshot }

  abbrev pub save_raft_state : B → Persister B → Persister B
  save_raft_state state ps = record ps { raftstate = state }

  abbrev pub save_state_and_snapshot : B → B → Persister B → Persister B
  save_state_and_snapshot state snapshot ps = record { raftstate = state; snapshot = snapshot }

  abbrev pub read_raft_state : Persister B → B
  read_raft_state ps = ps.raftstate

  abbrev pub read_snapshot : Persister B → B
  read_snapshot ps = ps.snapshot

  module _ (len : B → ℕ) where
    abbrev pub raft_state_size : Persister B → ℕ
    raft_state_size ps = len ps.raftstate

    abbrev pub snapshot_size : Persister B → ℕ
    snapshot_size ps = len ps.snapshot
