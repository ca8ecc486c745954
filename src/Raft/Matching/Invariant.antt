-- ===== src/Raft/Matching/Invariant.antt =====
-- What is known of every state of a cluster of src/raft/raft.go with its network, for the matching of
-- the logs.
use cosi300a.Prelude.{
  ℕ, ◌+◌, ◌≡◌, ◌≢◌, ◌<◌, ◌≤◌, inl, inr, subst, Bool-cases, nat_eq, some, none, arith, All, All_mono,
  List, [], ◌∷◌,
}
use cosi300a.Raft.Types.{
  Raft, Labgob, leader, AppendEntriesArgs, InstallSnapshotArg, LogItem, ApplyMsg, entry, snapshot,
}
use cosi300a.Raft.Log.{get_majority_count}
use cosi300a.Raft.Contiguous.{final}
use cosi300a.Raft.Cluster.Steps.{Votes, with_node}
use cosi300a.Raft.Cluster.Leaders.{votes_for, votes_for_mono, Sub}
use cosi300a.Raft.Cluster.Elects.{Elects}
use cosi300a.Raft.Matching.Chain.{Created, Chain, IsChained}
use cosi300a.Raft.Matching.Traced.{IsSent, IsTraced}
use cosi300a.Raft.Matching.Network.{Network}

-- A peer that a majority has elected leader in term `t`, and that has no second majority of votes to
-- count in it.
pub record IsElected {C D B : Type 0} (n : ℕ) (counted : Votes) (t k : ℕ) (a : Raft C D B)
    : Type 0 where
  pub within : k < n
  pub elected : get_majority_count n ≤ votes_for counted n t k
  pub reached : t ≤ a.current_term
  pub spent : t ≡ a.current_term → a.vote_count + get_majority_count n ≤ votes_for counted n t k

-- A leader has counted its majority, and no entry of its term is behind its log.
pub record Leads {C D B : Type 0} (created : Created C) (n : ℕ) (counted : Votes) (i : ℕ)
    (a : Raft C D B) : Type 0 where
  pub spent :
      a.state ≡ leader → a.vote_count + get_majority_count n ≤ votes_for counted n a.current_term i
  pub above :
      a.state ≡ leader → (index : ℕ) → final a.log < index → created a.current_term index ≡ none

-- A call is for another peer than the one that a majority had elected in its term.
pub record IsCall (n : ℕ) (counted : Votes) (to leader_id term : ℕ) : Type 0 where
  pub within : leader_id < n
  pub other : to ≢ leader_id
  pub elected : get_majority_count n ≤ votes_for counted n term leader_id

abbrev pub IsAppend : {C : Type 0} → Created C → ℕ → Votes → ℕ × AppendEntriesArgs C → Type 0
IsAppend created n counted (to, args) =
    IsCall n counted to args.leader_id args.term
    × Chain created args.prev_log_term (args.prev_log_index + 1) args.entries

abbrev pub IsInstall : {D : Type 0} → ℕ → Votes → ℕ × InstallSnapshotArg D → Type 0
IsInstall n counted (to, arg) = IsCall n counted to arg.leader_id arg.term

pub record Matches {C D B : Type 0} (g : Labgob C D B) (n : ℕ) (created : Created C)
    (s : Network C D B) : Type 0 where
  pub elects : Elects g n s.cluster
  pub traced : (i : ℕ) → i < n → IsTraced created (s.cluster.nodes i)
  pub leads : (i : ℕ) → i < n → Leads created n s.cluster.counted i (s.cluster.nodes i)
  pub creators :
      (t index : ℕ) (e : C × ℕ)
      → created t index ≡ some e
      → (k : ℕ) × IsElected n s.cluster.counted t k (s.cluster.nodes k)
  pub appends : All (IsAppend created n s.cluster.counted) s.appends
  pub installs : All (IsInstall n s.cluster.counted) s.installs

-- For some record of the entries that were created.
abbrev pub Matching : {C D B : Type 0} → Labgob C D B → ℕ → Network C D B → Type 0
Matching {C} g n s = (created : Created C) × Matches g n created s

abbrev pub Extends : {C : Type 0} → Created C → Created C → Type 0
Extends {C} created more = (t i : ℕ) (e : C × ℕ) → created t i ≡ some e → more t i ≡ some e

module _ {C : Type 0} (created more : Created C) (up : Extends created more) where
  pub Chain-Extends : (p n : ℕ) (xs : List (LogItem C)) → Chain created p n xs → Chain more p n xs
  Chain-Extends p n [] h = tt
  Chain-Extends p n (x ∷ xs) h =
      let (c, a, b) = h.1 in
      (h.0, (c, a, up x.term n (c, p) b), Chain-Extends x.term (n + 1) xs h.2)

  IsChained-Extends : (log : List (LogItem C)) → IsChained created log → IsChained more log
  IsChained-Extends [] h = tt
  IsChained-Extends (x ∷ xs) h = Chain-Extends x.term (x.index + 1) xs h

  IsSent-Extends : {D : Type 0} (m : ApplyMsg C D) → IsSent created m → IsSent more m
  IsSent-Extends (entry x index term) h = let (c, p, a, b) = h in (c, p, a, up term index (c, p) b)
  IsSent-Extends (snapshot bytes index term) h = tt

  pub IsTraced-Extends : {D B : Type 0} (rf : Raft C D B) → IsTraced created rf → IsTraced more rf
  IsTraced-Extends rf h = record {
    log = IsChained-Extends rf.log h.log;
    sent = All_mono (IsSent created) (IsSent more) rf.apply_ch IsSent-Extends h.sent;
  }

module _ (n : ℕ) (counted more : Votes) (up : Sub counted more) where
  pub IsCall-Sub : (to from t : ℕ) → IsCall n counted to from t → IsCall n more to from t
  IsCall-Sub to from t h = record {
    within = h.within;
    other = h.other;
    elected = omega (arith, h.elected, votes_for_mono n t from counted more up);
  }

  pub IsElected-Sub :
      {C D B : Type 0} (t k : ℕ) (a : Raft C D B)
      → IsElected n counted t k a
      → IsElected n more t k a
  IsElected-Sub t k a h = record {
    within = h.within;
    elected = omega (arith, h.elected, votes_for_mono n t k counted more up);
    reached = h.reached;
    spent = λ e. omega (arith, h.spent e, votes_for_mono n t k counted more up);
  }

  pub Leads-Sub :
      {C D B : Type 0} (created : Created C) (i : ℕ) (a : Raft C D B)
      → Leads created n counted i a
      → Leads created n more i a
  Leads-Sub created i a h = record {
    spent = λ l. omega (arith, h.spent l, votes_for_mono n a.current_term i counted more up);
    above = h.above;
  }

-- A property of each peer, where one peer is in a new state.
pub placed_peer {ℓ κ} :
    {A : Type ℓ} (P : ℕ → A → Type κ) (nodes : ℕ → A) (i : ℕ) (b : A)
    → P i b
    → ((k : ℕ) → i ≢ k → P k (nodes k))
    → (k : ℕ) → P k (with_node nodes i b k)
placed_peer P nodes i b h others k = elim (Bool-cases (nat_eq i k)) [
  | inl same ↦ rw same (subst (λ m. P m b) (ground (arith, same)) h)
  | inr other ↦ rw other (others k (λ e. ground (arith, e, other)))
]
