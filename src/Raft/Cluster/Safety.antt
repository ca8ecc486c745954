-- ===== src/Raft/Cluster/Safety.antt =====
-- A cluster of peers of src/raft/raft.go has one leader in a term.
use cosi300a.Prelude.{
  ℕ, ◌≡◌, ◌≢◌, ◌<◌, ◌≤◌, inl, inr, subst, true, false, ok, nat_eq, arith, Bool-cases,
}
use cosi300a.Raft.Types.{Raft, Labgob, IsCodec, leader, follower}
use cosi300a.Raft.Log.{get_majority_count}
use cosi300a.Raft.Run.Steps.{make-IsDurable}
use cosi300a.Raft.Cluster.Tally.{tally-disjoint}
use cosi300a.Raft.Cluster.Steps.{
  Cluster, Moved, vote, campaign, hear, background, Reached, begin, move,
}
use cosi300a.Raft.Cluster.Leaders.{votes_for}
use cosi300a.Raft.Cluster.Elects.{Elects, background-Elects, vote-Elects}
use cosi300a.Raft.Cluster.Candidate.{hear-Elects, campaign-Elects}
use cosi300a.Raft.Persister.{Persister}
use cosi300a.Raft.Node.{make}

-- Every peer has been started by `Make`, from any persister, and no vote has been cast since.
pub record IsStart {C D B : Type 0} (g : Labgob C D B) (n : ℕ) (s : Cluster C D B) : Type 0 where
  pub made : (i : ℕ) → (ps : Persister B) × (now : ℕ) × (make g n i ps now ≡ ok (s.nodes i))
  pub unanswered : (t j c : ℕ) → s.answered t j c ≡ false
  pub uncounted : (t j c : ℕ) → s.counted t j c ≡ false

pub record Fresh {C D B : Type 0} (n i : ℕ) (b : Raft C D B) : Type 0 where
  pub me : b.me ≡ i
  pub peers : b.peers ≡ n
  pub state : b.state ≡ follower
  pub vote_count : b.vote_count ≡ 0

pub made-Fresh :
    {C D B : Type 0} (g : Labgob C D B) (n i now : ℕ) (ps : Persister B) (b : Raft C D B)
    → make g n i ps now ≡ ok b
    → Fresh n i b
unfolding make
made-Fresh g n i now ps b e = ground (arith, e)

module _ {C D B : Type 0} (g : Labgob C D B) (c : IsCodec g) (n : ℕ) where
  pub Moved-Elects : {s t : Cluster C D B} → Elects g n s → Moved g n s t → Elects g n t
  Moved-Elects {s} h (vote i now args reply b e) = vote-Elects g c n s i now args reply b h e
  Moved-Elects {s} h (campaign i now timeout calls b e) =
      campaign-Elects g c n s i now timeout calls b h e
  Moved-Elects {s} h (hear i j now reply b e lt was fresh) =
      hear-Elects g c n s i j now reply b h e lt was fresh
  Moved-Elects {s} h (background i b step k) = background-Elects g c n s i b step h k

  pub Reached-Elects : {s t : Cluster C D B} → Elects g n s → Reached g n s t → Elects g n t
  Reached-Elects h begin = h
  Reached-Elects h (move r m) = Moved-Elects (Reached-Elects h r) m

  -- Two peers that a majority has voted for in one term are the same.
  pub majorities_agree :
      (s : Cluster C D B) (i k t : ℕ)
      → Elects g n s
      → get_majority_count n ≤ votes_for s.counted n t i
      → get_majority_count n ≤ votes_for s.counted n t k
      → i ≡ k
  majorities_agree s i k t h a b = elim (Bool-cases (nat_eq i k)) [
    | inl same ↦ ground (arith, same)
    | inr other ↦
        let both =
          tally-disjoint (λ j. s.counted t j i) (λ j. s.counted t j k) n
            (apart (λ e. ground (arith, e, other))) in
        absurd (omega (arith, a, b, both))
  ]
    where
      apart : i ≢ k → (j : ℕ) → s.counted t j i ≡ true → s.counted t j k ≡ false
      apart ne j e = elim (Bool-cases (s.counted t j k)) [
        | inl e' ↦ absurd (ne (h.unique t j i k (h.cast t j i e) (h.cast t j k e')))
        | inr none ↦ none
      ]

  pub leaders_agree :
      (s : Cluster C D B) (i k : ℕ)
      → Elects g n s
      → i < n
      → k < n
      → (s.nodes i).state ≡ leader
      → (s.nodes k).state ≡ leader
      → (s.nodes i).current_term ≡ (s.nodes k).current_term
      → i ≡ k
  leaders_agree s i k h hi hk li lk e =
      majorities_agree s i k (s.nodes k).current_term h
        (subst (λ u. get_majority_count n ≤ votes_for s.counted n u i) e
          ((h.nodes i).elected hi li))
        ((h.nodes k).elected hk lk)

  pub made-Elects : (s : Cluster C D B) → IsStart g n s → Elects g n s
  made-Elects s h = record {
    nodes = λ i.
        let (ps, now, e) = h.made i in
        let b = s.nodes i in
        let f : Fresh n i b = made-Fresh g n i now ps b e in
        record {
          me = f.me;
          peers = f.peers;
          durable = make-IsDurable g c n i now ps b e;
          cast = λ t d m. ground (arith, m, h.unanswered t i d);
          enough = λ lt. omega (arith, f.vote_count);
          elected = λ lt leads. ground (arith, leads, f.state);
        };
    unique = λ t j d d' m m'. ground (arith, m, h.unanswered t j d);
    cast = λ t j d m. ground (arith, m, h.uncounted t j d);
  }

  -- In a cluster of `n` peers, each started by `Make` from any persister: after any run of
  -- operations of the peers, crashes and restarts included, in which each vote that was granted
  -- reaches its candidate at most once, two peers that lead in the same term are the same peer.
  -- labgob is one that decodes what it encodes.
  pub one_leader_per_term :
      (s s' : Cluster C D B) (i k : ℕ)
      → IsStart g n s
      → Reached g n s s'
      → i < n
      → k < n
      → (s'.nodes i).state ≡ leader
      → (s'.nodes k).state ≡ leader
      → (s'.nodes i).current_term ≡ (s'.nodes k).current_term
      → i ≡ k
  one_leader_per_term s s' i k h r hi hk li lk e =
      leaders_agree s' i k (Reached-Elects (made-Elects s h) r) hi hk li lk e
