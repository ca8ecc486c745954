-- ===== src/Raft/Tester/OneLeader.antt =====
-- `checkOneLeader` of src/raft/config.go on a cluster of peers of src/raft/raft.go.
use cosi300a.Prelude.{ℕ, ◌≡◌, ◌<◌, ◌≤◌, ◌⊎◌, Bool, Result, ok, panic}
use cosi300a.Raft.Types.{Raft}
use cosi300a.Raft.Cluster.Steps.{Cluster}
use cosi300a.Raft.Tester.Leaders.{Leads, LeadsLast}

module _ {C D B : Type 0} (connected : ℕ → Bool) (n : ℕ) where
  -- What comes of the tries `from`, `from + 1`, … up to `to`: the first that finds a leader.
  abbrev pub Outcome : ℕ → ℕ → (ℕ → ℕ → Raft C D B) → Result ℕ → Type 0
  Outcome from to rafts result =
      ((result ≡ panic) × ((t k : ℕ) → from ≤ t → t < to → ¬ Leads connected (rafts t) n k))
      ⊎ ((t k : ℕ) × (from ≤ t) × (t < to) × (result ≡ ok k) × LeadsLast connected (rafts t) n k)

-- The tester finds each peer at its own moment, one after the other.
abbrev pub seen : {C D B : Type 0} → (ℕ → Cluster C D B) → ℕ → Raft C D B
seen moments i = (moments i).nodes i
