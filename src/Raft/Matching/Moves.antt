-- ===== src/Raft/Matching/Moves.antt =====
-- The invariant of the matching of logs over a step of one peer of src/raft/raft.go that creates no
-- entry.
use cosi300a.Prelude.{
  ℕ, ◌+◌, ◌≡◌, ◌<◌, ◌≤◌, ◌⊎◌, inl, inr, sym, subst, Option-cases, none, arith, All_mono,
}
use cosi300a.Raft.Types.{Raft, Labgob, IsCodec, leader}
use cosi300a.Raft.Log.{get_majority_count}
use cosi300a.Raft.Contiguous.{final}
use cosi300a.Raft.Cluster.Steps.{Votes, Cluster, with_node}
use cosi300a.Raft.Cluster.Tally.{tally_le}
use cosi300a.Raft.Cluster.Leaders.{votes_for, votes_for_mono, Sub, IsElecting}
use cosi300a.Raft.Cluster.Quiet.{Gains}
use cosi300a.Raft.Cluster.Elects.{Elects}
use cosi300a.Raft.Cluster.Safety.{majorities_agree}
use cosi300a.Raft.Matching.Chain.{Created}
use cosi300a.Raft.Matching.Traced.{IsTraced}
use cosi300a.Raft.Matching.Continues.{Continues}
use cosi300a.Raft.Matching.Network.{Network}
use cosi300a.Raft.Matching.Invariant.{
  IsElected, IsElected-Sub, Leads, Leads-Sub, IsCall-Sub, IsAppend, IsInstall, Matches, placed_peer,
}

module _ {C D B : Type 0} (g : Labgob C D B) (c : IsCodec g) (n : ℕ) (created : Created C)
    (s : Network C D B) (h : Matches g n created s) (i : ℕ) (lt : i < n) (b : Raft C D B)
    (answered counted : Votes) (more : Sub s.cluster.counted counted) where
  abbrev stepped : Cluster C D B
  stepped = record { nodes = with_node s.cluster.nodes i b; answered = answered; counted = counted }

  -- The peer is in its new state, everything else is as it was.
  pub placed-Matches :
      Elects g n stepped
      → IsTraced created b
      → Leads created n counted i b
      → ((t : ℕ)
          → IsElected n s.cluster.counted t i (s.cluster.nodes i)
          → IsElected n counted t i b)
      → Matches g n created (record s { cluster = stepped })
  placed-Matches elects traced leads elected = record {
    elects = elects;
    traced =
        placed_peer (λ k a. k < n → IsTraced created a) s.cluster.nodes i b (λ _. traced)
          (λ k ne. h.traced k);
    leads =
        placed_peer (λ k a. k < n → Leads created n counted k a) s.cluster.nodes i b (λ _. leads)
          (λ k ne within.
            Leads-Sub n s.cluster.counted counted more created k (s.cluster.nodes k)
              (h.leads k within));
    creators = λ t index e made.
        let (k, was) = h.creators t index e made in
        (
          k,
          placed_peer
              (λ k a.
                IsElected n s.cluster.counted t k (s.cluster.nodes k) → IsElected n counted t k a)
              s.cluster.nodes i b (elected t)
              (λ k ne. IsElected-Sub n s.cluster.counted counted more t k (s.cluster.nodes k)) k
              was,
        );
    appends =
        All_mono (IsAppend created n s.cluster.counted) (IsAppend created n counted) s.appends
          (λ (to, args) (call, chained).
            (IsCall-Sub n s.cluster.counted counted more to args.leader_id args.term call, chained))
          h.appends;
    installs =
        All_mono (IsInstall n s.cluster.counted) (IsInstall n counted) s.installs
          (λ (to, arg) call.
            IsCall-Sub n s.cluster.counted counted more to arg.leader_id arg.term call)
          h.installs;
  }

  module _ (elects : Elects g n stepped) (gain : ℕ) (gains : Gains gain (s.cluster.nodes i) b)
      (room : votes_for s.cluster.counted n (s.cluster.nodes i).current_term i + gain
        ≤ votes_for counted n (s.cluster.nodes i).current_term i)
      (up : (s.cluster.nodes i).current_term ≤ b.current_term)
      (wins : b.state ≡ leader → ((s.cluster.nodes i).state ≡ leader) ⊎ (b.vote_count ≡ 0)) where
    abbrev a : Raft C D B
    a = s.cluster.nodes i

    -- The room for a vote, in the term as it is written elsewhere.
    room_at :
        (t : ℕ)
        → t ≡ a.current_term
        → votes_for s.cluster.counted n t i + gain ≤ votes_for counted n t i
    room_at t e =
        subst (λ u. votes_for s.cluster.counted n u i + gain ≤ votes_for counted n u i) (sym e) room

    gains-IsElected : (t : ℕ) → IsElected n s.cluster.counted t i a → IsElected n counted t i b
    gains-IsElected t k = record {
      within = lt;
      elected = kept;
      reached = omega (arith, k.reached, up);
      spent = λ e. elim gains.counted [
        | inl zero_count ↦ omega (arith, zero_count, kept)
        | inr (same, le) ↦
            let at : t ≡ a.current_term = omega (arith, e, same) in
            omega (arith, le, k.spent at, room_at t at)
      ];
    }
      where
        kept : get_majority_count n ≤ votes_for counted n t i
        kept = omega (arith, k.elected, votes_for_mono n t i s.cluster.counted counted more)

    won : b.state ≡ leader → get_majority_count n ≤ votes_for counted n b.current_term i
    won leads =
        let here : with_node s.cluster.nodes i b i ≡ b = ground arith in
        (subst (λ x. IsElecting g n answered counted i x) here (elects.nodes i)).elected lt leads

    -- No entry of the term in which the peer wins its election has been created.
    unmade :
        b.state ≡ leader → (a.state ≡ leader) ⊎ ((index : ℕ) → created b.current_term index ≡ none)
    unmade leads = elim (gains.leads leads).1 [
      | inl led ↦ inl led
      | inr majority ↦ inr (λ index. elim (Option-cases (created b.current_term index)) [
        | inl nothing ↦ nothing
        | inr (e, made) ↦
            let (k, was) = h.creators b.current_term index e made in
            let mine : i ≡ k =
              majorities_agree g c n stepped i k b.current_term elects (won leads) (
                omega (
                  arith,
                  was.elected,
                  votes_for_mono n b.current_term k s.cluster.counted counted more,
                )) in
            let own : IsElected n s.cluster.counted b.current_term i a =
              subst (λ m. IsElected n s.cluster.counted b.current_term m (s.cluster.nodes m))
                (sym mine) was in
            let at = (gains.leads leads).0 in
            absurd (
              omega (
                arith,
                own.spent at,
                room_at b.current_term at,
                majority,
                (h.elects.nodes i).peers,
                tally_le (λ j. counted b.current_term j i) n,
              ))
      ])
    ]

    gains-Leads : (b.state ≡ leader → final b.log ≡ final a.log) → Leads created n counted i b
    gains-Leads last = record {
      spent = λ leads. elim gains.counted [
        | inl zero_count ↦ omega (arith, zero_count, won leads)
        | inr (same, le) ↦ elim (wins leads) [
          | inl led ↦
              let was =
                subst (λ t. a.vote_count + get_majority_count n ≤ votes_for s.cluster.counted n t i)
                  (sym same) ((h.leads i lt).spent led) in
              omega (arith, le, was, room_at b.current_term same)
          | inr zero_count ↦ omega (arith, zero_count, won leads)
        ]
      ];
      above = λ leads index behind. elim (unmade leads) [
        | inr nothing ↦ nothing index
        | inl led ↦
            subst (λ t. created t index ≡ none) (sym (gains.leads leads).0)
              ((h.leads i lt).above led index (omega (arith, behind, last leads)))
      ];
    }

    -- A step of the peer that counts `gain` votes and continues its log.
    pub gains-Matches : Continues created a b → Matches g n created (record s { cluster = stepped })
    gains-Matches k = placed-Matches elects k.traced (gains-Leads k.last) gains-IsElected
