-- ===== src/Raft/Wins.antt =====
-- A campaign of src/raft/raft.go that a majority of the peers supports makes its candidate the leader.
use cosi300a.Prelude.{
  ℕ, ◌+◌, ◌≤◌, ◌<◌, ◌≡◌, ◌≢◌, ap, ◌&&◌, if◌then◌else◌, zero, suc, subst, sym, Bool-cases, nat_eq,
  ◌⊎◌, ◌∙◌, inl, inr, List, [], ◌∷◌, arith, ok, Go, pure, ◌>>◌, All, Result-cases, refl,
}
use cosi300a.Raft.Types.{Raft, Labgob, IsCodec, RequestVoteArgs, RequestVoteReply, leader}
use cosi300a.Raft.Log.{get_majority_count}
use cosi300a.Raft.Vote.{election_tick, to_all, handle_vote_reply}
use cosi300a.Raft.Persister.{save_raft_state}
use cosi300a.Raft.Node.{others, become_candidate}
use cosi300a.Raft.Run.Defs.{persistent}
use cosi300a.Raft.Contiguous.{IsLog, final}
use cosi300a.Raft.Accessors.{get_last_log_index-IsLog, get_last_log_term-IsLog}
use cosi300a.Raft.Cluster.Quiet.{gain_of}

module _ {C D B : Type 0} (g : Labgob C D B) where
  -- The replies in the order in which they come, each with the time.
  unfoldable pub hear_votes : List (ℕ × RequestVoteReply) → Go (Raft C D B) Unit
  unfolding handle_vote_reply
  hear_votes [] = pure tt
  hear_votes ((now, reply) ∷ replies) = do handle_vote_reply g now reply; hear_votes replies

-- The votes among the replies that are for term `t`.
abbrev pub votes_won : ℕ → List (ℕ × RequestVoteReply) → ℕ
votes_won t [] = 0
votes_won t ((now, reply) ∷ replies) =
    (if reply.vote_granted && nat_eq reply.term t then 1 else 0) + votes_won t replies

others-some : (me n : ℕ) → 1 < n → (j : ℕ) × (rest : List ℕ) × (others me n 0 ≡ j ∷ rest)
unfolding others
others-some me zero lt = absurd (omega arith)
others-some me (suc zero) lt = absurd (omega arith)
others-some me (suc (suc n)) lt = elim (Bool-cases (nat_eq 0 me)) [
  | inl first ↦ (1, others me n 2, ground (arith, first))
  | inr other ↦ (0, others me (suc n) 1, ground (arith, other))
]

-- A step on the way to a majority.
record Nears {C D B : Type 0} (gain : ℕ) (a b : Raft C D B) : Type 0 where
  peers : b.peers ≡ a.peers
  current_term : b.current_term ≡ a.current_term
  log : b.log ≡ a.log
  win :
      (b.state ≡ leader)
      ⊎ ((a.state ≢ leader)
          × (b.vote_count ≡ a.vote_count + gain)
          × (b.vote_count < get_majority_count a.peers))

module _ {C D B : Type 0} (g : Labgob C D B) (c : IsCodec g) where
  hear_one :
      (now : ℕ) (reply : RequestVoteReply) (rf : Raft C D B)
      → IsLog rf.log
      → reply.term ≤ rf.current_term
      → (rf.state ≡ leader) ⊎ (rf.vote_count < get_majority_count rf.peers)
      → (rf' : Raft C D B) × (handle_vote_reply g now reply rf ≡ ok (tt, rf'))
        × Nears (gain_of reply rf) rf rf'
  unfolding handle_vote_reply
  hear_one now reply rf h le o =
      let (b, enc) = c.state_encodes (persistent rf) in
      Result-cases (handle_vote_reply g now reply rf)
        (λ (done, rf') e. (rf', e, ground (arith, e, le, o)))
        (λ e. ground (arith, e, le, enc, get_last_log_index-IsLog rf.log h))

  on_the_way :
      (now : ℕ) (reply : RequestVoteReply) (replies : List (ℕ × RequestVoteReply))
      (rf rf1 : Raft C D B)
      → (rf.state ≡ leader)
        ⊎ ((rf.vote_count < get_majority_count rf.peers)
            × (get_majority_count rf.peers
                ≤ rf.vote_count + votes_won rf.current_term ((now, reply) ∷ replies)))
      → Nears (gain_of reply rf) rf rf1
      → (rf1.state ≡ leader)
        ⊎ ((rf1.vote_count < get_majority_count rf1.peers)
            × (get_majority_count rf1.peers ≤ rf1.vote_count + votes_won rf1.current_term replies))
  on_the_way now reply replies rf rf1 o n =
      let same : votes_won rf1.current_term replies ≡ votes_won rf.current_term replies =
        ap (λ t. votes_won t replies) n.current_term in
      elim n.win [
        | inl led ↦ inl led
        | inr (not_led, counted, few) ↦ elim o [
          | inl led ↦ absurd (not_led led)
          | inr (_, enough) ↦
              inr (omega (arith, few, n.peers), omega (arith, same, counted, enough, n.peers))
        ]
      ]

  -- Replies that are for no later term, with enough votes among them.
  hear_all :
      (replies : List (ℕ × RequestVoteReply)) (rf : Raft C D B)
      → IsLog rf.log
      → All (λ (now, reply). reply.term ≤ rf.current_term) replies
      → (rf.state ≡ leader)
        ⊎ ((rf.vote_count < get_majority_count rf.peers)
            × (get_majority_count rf.peers ≤ rf.vote_count + votes_won rf.current_term replies))
      → (rf' : Raft C D B) × (hear_votes g replies rf ≡ ok (tt, rf'))
        × (rf'.state ≡ leader)
        × (rf'.current_term ≡ rf.current_term)
        × (rf'.log ≡ rf.log)
  unfolding hear_votes
  hear_all [] rf h le o = (rf, ground arith, ground (arith, o), refl, refl)
  hear_all ((now, reply) ∷ replies) rf h le o =
      let (rf1, e, n) = hear_one now reply rf h le.0 (ground (arith, o)) in
      let (rf', e', l, t, log) =
        hear_all replies rf1 (subst IsLog (sym n.log) h)
          (subst (λ t. All (λ (at, r). r.term ≤ t) replies) (sym n.current_term) le.1)
          (on_the_way now reply replies rf rf1 o n) in
      (rf', ground (arith, e, e'), l, t ∙ n.current_term, log ∙ n.log)

  -- A peer of a cluster of more than one, whose log is a log and whose election timeout has passed,
  -- campaigns; and once the replies that it hears, in any order and none of them for a later term,
  -- have brought it enough votes of its new term for a majority with its own, it leads in that
  -- term, with its log as it was. Nothing panics, if labgob encodes.
  pub wins :
      (now timeout : ℕ) (rf : Raft C D B) (replies : List (ℕ × RequestVoteReply))
      → IsLog rf.log
      → 1 < rf.peers
      → rf.election_time_stamp + timeout ≤ now
      → All (λ (at, reply). reply.term ≤ rf.current_term + 1) replies
      → get_majority_count rf.peers ≤ votes_won (rf.current_term + 1) replies + 1
      → (calls : List (ℕ × RequestVoteArgs)) × (candidate : Raft C D B) × (rf' : Raft C D B)
        × (election_tick g now timeout rf ≡ ok (calls, candidate))
        × (hear_votes g replies candidate ≡ ok (tt, rf'))
        × (rf'.state ≡ leader)
        × (rf'.current_term ≡ rf.current_term + 1)
        × (rf'.log ≡ rf.log)
  unfolding election_tick
  wins now timeout rf replies h many due le enough =
      let (j, rest, o) = others-some rf.me rf.peers many in
      let (b, enc) = c.state_encodes (persistent (become_candidate now rf)) in
      let (t, last_term) = get_last_log_term-IsLog rf.log h in
      let candidate = record (become_candidate now rf) {
        persister = save_raft_state b rf.persister;
      } in
      let args : RequestVoteArgs = record {
        term = rf.current_term + 1;
        candidate_id = rf.me;
        last_log_index = final rf.log;
        last_log_term = t;
      } in
      let (rf', heard, leads, term, log) =
        hear_all replies candidate h le (inr (omega (arith, many), omega (arith, enough))) in
      (
        to_all g args (j ∷ rest),
        candidate,
        rf',
        ground (arith, due, o, enc, last_term, get_last_log_index-IsLog rf.log h),
        heard,
        leads,
        term,
        log,
      )
