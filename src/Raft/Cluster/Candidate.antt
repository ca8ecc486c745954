-- ===== src/Raft/Cluster/Candidate.antt =====
-- The elections of a cluster of src/raft/raft.go over the steps of a candidate.
use cosi300a.Prelude.{
  ℕ, ◌+◌, ◌≡◌, ◌≢◌, ◌<◌, ◌≤◌, ◌⊎◌, inl, inr, refl, ap, sym, subst, ◌∙◌, Bool, true, false, ok, List,
  ◌&&◌, nat_eq, ltb, pos, arith, Bool-cases, After,
}
use cosi300a.Raft.Types.{Raft, Labgob, IsCodec, RequestVoteArgs, RequestVoteReply}
use cosi300a.Raft.Vote.{election_tick, handle_vote_reply}
use cosi300a.Raft.Run.Steps.{Step, Step-Advances, Step-IsDurable, campaigned, heard_vote}
use cosi300a.Raft.Cluster.Quiet.{
  Campaigns, gain_of, handle_vote_reply-Gains, election_tick-Campaigns,
}
use cosi300a.Raft.Cluster.Steps.{Votes, Cluster, with_node, mark}
use cosi300a.Raft.Cluster.Leaders.{
  votes_for, Sub, Sub-mark, mark-new, Unique-mark, votes_for-mark, votes_for_mono, IsElecting,
  IsElecting-Sub, cast-Advances, IsElecting-Gains, place,
}
use cosi300a.Raft.Cluster.Elects.{Elects}

module _ {C D B : Type 0} (g : Labgob C D B) (c : IsCodec g) (n : ℕ) where
  -- A vote that the candidate counts is one more vote that has reached it.
  pub hear_room :
      (s : Cluster C D B) (i j : ℕ) (reply : RequestVoteReply)
      → j < n
      → (reply.vote_granted ≡ true → s.counted reply.term j i ≡ false)
      → votes_for s.counted n (s.nodes i).current_term i + gain_of reply (s.nodes i)
        ≤ votes_for (mark reply.vote_granted reply.term j i s.counted) n (s.nodes i).current_term i
  hear_room s i j reply lt fresh =
      elim (Bool-cases (reply.vote_granted && nat_eq reply.term (s.nodes i).current_term)) [
        | inl both ↦
            let granted : reply.vote_granted ≡ true = ground (arith, both) in
            let at : reply.term ≡ (s.nodes i).current_term = ground (arith, both) in
            let one =
              subst
                (λ t.
                  votes_for (mark true reply.term j i s.counted) n t i
                  ≡ votes_for s.counted n t i + 1)
                at (votes_for-mark n reply.term j i s.counted lt (fresh granted)) in
            let all =
              ap (λ v. votes_for (mark v reply.term j i s.counted) n (s.nodes i).current_term i)
                granted in
            let gain : gain_of reply (s.nodes i) ≡ 1 = rw both refl in omega (arith, one, all, gain)
        | inr none ↦
            let gain : gain_of reply (s.nodes i) ≡ 0 = rw none refl in
            omega (
              gain,
              arith,
              votes_for_mono n (s.nodes i).current_term i s.counted
                  (mark reply.vote_granted reply.term j i s.counted)
                  (Sub-mark reply.vote_granted reply.term j i s.counted),
            )
      ]

  pub hear-Elects :
      (s : Cluster C D B) (i j now : ℕ) (reply : RequestVoteReply) (b : Raft C D B)
      → Elects g n s
      → handle_vote_reply g now reply (s.nodes i) ≡ ok (tt, b)
      → j < n
      → (reply.vote_granted ≡ true → s.answered reply.term j i ≡ true)
      → (reply.vote_granted ≡ true → s.counted reply.term j i ≡ false)
      → Elects g n (record s {
        nodes = with_node s.nodes i b;
        counted = mark reply.vote_granted reply.term j i s.counted;
      })
  hear-Elects s i j now reply b h e lt was fresh = record {
    nodes = place g n s.nodes i b s.answered counted moved (λ k ne.
        IsElecting-Sub g n s.answered s.counted s.answered counted k (s.nodes k) (h.nodes k)
          (λ t d m. m) more);
    unique = h.unique;
    cast = known;
  }
    where
      counted : Votes
      counted = mark reply.vote_granted reply.term j i s.counted

      more : Sub s.counted (mark reply.vote_granted reply.term j i s.counted)
      more = Sub-mark reply.vote_granted reply.term j i s.counted

      known : Sub (mark reply.vote_granted reply.term j i s.counted) s.answered
      known t k d m = elim (mark-new reply.vote_granted reply.term j i s.counted t k d m) [
        | inl old ↦ h.cast t k d old
        | inr (granted, et, ej, ei) ↦ rw (sym et, sym ej, sym ei) (was granted)
      ]

      step : Step g (s.nodes i) b
      step = heard_vote now reply e

      moved : IsElecting g n s.answered counted i b
      moved =
          IsElecting-Gains g n s.answered s.counted s.answered counted i (gain_of reply (s.nodes i))
            (s.nodes i) b (h.nodes i) (Step-IsDurable g c (h.nodes i).durable step)
            (ground (arith, e, handle_vote_reply-Gains g now (s.nodes i) reply))
            (cast-Advances g n s.answered i (s.nodes i) b (h.nodes i).cast
              (Step-Advances g c (h.nodes i).durable step))
            (λ _. hear_room s i j reply lt fresh)

  pub campaign-Elects :
      (s : Cluster C D B) (i now timeout : ℕ) (calls : List (ℕ × RequestVoteArgs)) (b : Raft C D B)
      → Elects g n s
      → election_tick g now timeout (s.nodes i) ≡ ok (calls, b)
      → Elects g n (record {
        nodes = with_node s.nodes i b;
        answered = mark (ltb (s.nodes i).current_term b.current_term) b.current_term i i s.answered;
        counted = mark (ltb (s.nodes i).current_term b.current_term) b.current_term i i s.counted;
      })
  campaign-Elects s i now timeout calls b h e = record {
    nodes = place g n s.nodes i b answered counted moved (λ k ne.
        IsElecting-Sub g n s.answered s.counted answered counted k (s.nodes k) (h.nodes k)
          (λ t d m. other k t d ne m) (Sub-mark higher b.current_term i i s.counted));
    unique =
        Unique-mark higher b.current_term i i s.answered h.unique
          (λ up d old. absurd (unvoted up d old));
    cast = known;
  }
    where
      higher : Bool
      higher = ltb (s.nodes i).current_term b.current_term

      answered : Votes
      answered = mark higher b.current_term i i s.answered

      counted : Votes
      counted = mark higher b.current_term i i s.counted

      step : Step g (s.nodes i) b
      step = campaigned now timeout calls e

      other :
          (k t d : ℕ)
          → i ≢ k
          → mark higher b.current_term i i s.answered t k d ≡ true
          → s.answered t k d ≡ true
      other k t d ne m = elim (mark-new higher b.current_term i i s.answered t k d m) [
        | inl old ↦ old
        | inr (_, _, same, _) ↦ absurd (ne same)
      ]

      -- The new term has no vote of the peer.
      unvoted : higher ≡ true → (d : ℕ) → ¬ (s.answered b.current_term i d ≡ true)
      unvoted up d old = ground (arith, up, (h.nodes i).cast b.current_term d old)

      known :
          Sub (mark higher b.current_term i i s.counted) (mark higher b.current_term i i s.answered)
      known t k d m = elim (mark-new higher b.current_term i i s.counted t k d m) [
        | inl old ↦ Sub-mark higher b.current_term i i s.answered t k d (h.cast t k d old)
        | inr (up, et, ej, ei) ↦ ground (arith, up, et, ej, ei)
      ]

      tick : (b ≡ s.nodes i) ⊎ Campaigns (s.nodes i) b
      tick =
          subst (After (λ (x : Raft C D B). (x ≡ s.nodes i) ⊎ Campaigns (s.nodes i) x)) e
            (election_tick-Campaigns g now (s.nodes i) timeout)

      cast :
          (t d : ℕ)
          → mark higher b.current_term i i s.answered t i d ≡ true
          → (t ≤ b.current_term) × (t ≡ b.current_term → b.vote_for ≡ pos d)
      cast t d m = elim (mark-new higher b.current_term i i s.answered t i d m) [
        | inl old ↦
            cast-Advances g n s.answered i (s.nodes i) b (h.nodes i).cast
              (Step-Advances g c (h.nodes i).durable step) t d old
        | inr (up, et, _, ed) ↦ elim tick [
          | inl same ↦ ground (arith, up, same)
          | inr k ↦ ground (arith, et, ed, k.vote_for, (h.nodes i).me)
        ]
      ]

      -- Its own vote is counted.
      own :
          i < n
          → higher ≡ true
          → 1 ≤ votes_for (mark higher b.current_term i i s.counted) n b.current_term i
      own lt up =
          let fresh : s.counted b.current_term i i ≡ false =
            elim (Bool-cases (s.counted b.current_term i i)) [
              | inl there ↦ absurd (unvoted up i (h.cast b.current_term i i there))
              | inr none ↦ none
            ] in
          let one = votes_for-mark n b.current_term i i s.counted lt fresh in
          let all =
            ap (λ v. votes_for (mark v b.current_term i i s.counted) n b.current_term i) up in
          omega (arith, one, all)

      moved : IsElecting g n answered counted i b
      moved = elim tick [
        | inl same ↦
            IsElecting-Gains g n s.answered s.counted answered counted i 0 (s.nodes i) b (h.nodes i)
              (Step-IsDurable g c (h.nodes i).durable step) (ground (arith, same)) cast
              (λ lt. omega (
                arith,
                votes_for_mono n (s.nodes i).current_term i s.counted
                    (mark higher b.current_term i i s.counted)
                    (Sub-mark higher b.current_term i i s.counted),
              ))
        | inr k ↦
            let up : higher ≡ true = ground (arith, k.current_term) in
            record {
              me = k.me ∙ (h.nodes i).me;
              peers = k.peers ∙ (h.nodes i).peers;
              durable = Step-IsDurable g c (h.nodes i).durable step;
              cast = cast;
              enough = λ lt. omega (arith, k.vote_count, own lt up);
              elected = λ lt leads. ground (arith, k.state, leads);
            }
      ]
