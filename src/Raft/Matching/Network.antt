-- ===== src/Raft/Matching/Network.antt =====
-- A cluster of peers of src/raft/raft.go with its network: the calls of AppendEntries and of
-- InstallSnapshot that were sent, any of which may arrive at any time, never, or more than once.
use cosi300a.Prelude.{ℕ, ◌≡◌, ◌≢◌, ◌<◌, ok, some, List, ◌∷◌, ◌++◌, get_elem?}
use cosi300a.Raft.Types.{
  Raft, Labgob, AppendEntriesArgs, AppendEntriesReply, InstallSnapshotArg, InstallSnapshotReply,
}
use cosi300a.Raft.Append.{append_tick, append_entries}
use cosi300a.Raft.Snapshot.{snapshot_tick, install_snapshot}
use cosi300a.Raft.Run.Steps.{Step, appended, installed}
use cosi300a.Raft.Cluster.Steps.{Cluster, with_node, Moved, vote, campaign, hear, background}

-- The calls with the peers that they are for.
pub record Network (C D B : Type 0) : Type 0 where
  pub cluster : Cluster C D B
  pub appends : List (ℕ × AppendEntriesArgs C)
  pub installs : List (ℕ × InstallSnapshotArg D)

module _ {C D B : Type 0} (g : Labgob C D B) (n : ℕ) where
  abbrev pub TakesNoCall : {a b : Raft C D B} → Step g a b → Type 0
  TakesNoCall (appended now args reply e) = ⊥
  TakesNoCall (installed now arg reply e) = ⊥
  TakesNoCall _ = Unit

  -- A step of one of the `n` peers in which no call of a leader arrives.
  abbrev pub IsLocal : {s t : Cluster C D B} → Moved g n s t → Type 0
  IsLocal (vote i now args reply b e) = i < n
  IsLocal (campaign i now timeout calls b e) = i < n
  IsLocal (hear i j now reply b e lt was fresh) = i < n
  IsLocal (background i b step k) = (i < n) × TakesNoCall step

  abbrev placed : Network C D B → ℕ → Raft C D B → Network C D B
  placed s i b = record s { cluster = record s.cluster { nodes = with_node s.cluster.nodes i b } }

  pub data Wired (s : Network C D B) : Network C D B → Type 0 where
    local :
        {t : Cluster C D B} (m : Moved g n s.cluster t)
        → IsLocal m
        → Wired s (record s { cluster = t })
    send_appends :
        (i : ℕ) (calls : List (ℕ × AppendEntriesArgs C))
        → i < n
        → append_tick (s.cluster.nodes i) ≡ ok calls
        → Wired s (record s { appends = calls ++ s.appends })
    send_install :
        (i server : ℕ) (arg : InstallSnapshotArg D)
        → i < n
        → i ≢ server
        → snapshot_tick g (s.cluster.nodes i) server ≡ ok (some arg)
        → Wired s (record s { installs = (server, arg) ∷ s.installs })
    receive_append :
        (i k now : ℕ) (args : AppendEntriesArgs C) (reply : AppendEntriesReply) (b : Raft C D B)
        → i < n
        → get_elem? s.appends k ≡ some (i, args)
        → append_entries g now args (s.cluster.nodes i) ≡ ok (reply, b)
        → Wired s (placed s i b)
    receive_install :
        (i k now : ℕ) (arg : InstallSnapshotArg D) (reply : InstallSnapshotReply) (b : Raft C D B)
        → i < n
        → get_elem? s.installs k ≡ some (i, arg)
        → install_snapshot g now arg (s.cluster.nodes i) ≡ ok (reply, b)
        → Wired s (placed s i b)

  pub data Ran (s : Network C D B) : Network C D B → Type 0 where
    unmoved : Ran s s
    ran : {t u : Network C D B} → Ran s t → Wired t u → Ran s u
