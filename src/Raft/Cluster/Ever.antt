-- ===== src/Raft/Cluster/Ever.antt =====
-- The leaders of a term in a cluster of src/raft/raft.go, at whatever times they lead.
use cosi300a.Prelude.{ℕ, ◌≡◌, ◌<◌, ◌≤◌, subst, arith}
use cosi300a.Raft.Types.{Labgob, IsCodec, leader}
use cosi300a.Raft.Log.{get_majority_count}
use cosi300a.Raft.Cluster.Steps.{
  Cluster, Moved, vote, campaign, hear, background, Reached, begin, move,
}
use cosi300a.Raft.Cluster.Leaders.{Sub, Sub-mark, votes_for, votes_for_mono}
use cosi300a.Raft.Cluster.Safety.{IsStart, Reached-Elects, made-Elects, majorities_agree}

module _ {C D B : Type 0} (g : Labgob C D B) (n : ℕ) where
  -- A vote that is counted stays counted.
  Moved-Sub : {s t : Cluster C D B} → Moved g n s t → Sub s.counted t.counted
  Moved-Sub (vote i now args reply b e) t j c h = h
  Moved-Sub {s} (campaign i now timeout calls b e) t j c h = Sub-mark _ _ i i s.counted t j c h
  Moved-Sub {s} (hear i k now reply b e lt was fresh) t j c h =
      Sub-mark reply.vote_granted reply.term k i s.counted t j c h
  Moved-Sub (background i b step k) t j c h = h

  Reached-Sub : {s t : Cluster C D B} → Reached g n s t → Sub s.counted t.counted
  Reached-Sub begin t j c h = h
  Reached-Sub (move r m) t j c h = Moved-Sub m t j c (Reached-Sub r t j c h)

  pub Reached-trans : {s t u : Cluster C D B} → Reached g n s t → Reached g n t u → Reached g n s u
  Reached-trans r begin = r
  Reached-trans r (move r' m) = Reached.move (Reached-trans r r') m

module _ {C D B : Type 0} (g : Labgob C D B) (c : IsCodec g) (n : ℕ) where
  -- In a cluster of `n` peers, each started by `Make` from any persister, in any run of operations
  -- of the peers, crashes and restarts included, in which each vote that was granted reaches its
  -- candidate at most once: a peer that leads at some time, and a peer that leads in the same term
  -- at that time or at any later one, are the same peer. labgob is one that decodes what it
  -- encodes.
  pub one_leader_ever :
      (s s' s'' : Cluster C D B) (i k : ℕ)
      → IsStart g n s
      → Reached g n s s'
      → Reached g n s' s''
      → i < n
      → k < n
      → (s'.nodes i).state ≡ leader
      → (s''.nodes k).state ≡ leader
      → (s'.nodes i).current_term ≡ (s''.nodes k).current_term
      → i ≡ k
  one_leader_ever s s' s'' i k h r r' hi hk li lk e =
      let now = Reached-Elects g c n (made-Elects g c n s h) r in
      let later = Reached-Elects g c n now r' in
      let term = (s''.nodes k).current_term in
      let won =
        subst (λ t. get_majority_count n ≤ votes_for s'.counted n t i) e
          ((now.nodes i).elected hi li) in
      let kept = votes_for_mono n term i s'.counted s''.counted (Reached-Sub g n r') in
      majorities_agree g c n s'' i k term later (omega (arith, won, kept))
        ((later.nodes k).elected hk lk)
