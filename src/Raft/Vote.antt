-- ===== src/Raft/Vote.antt =====
-- src/raft/raft.go: elections. `RequestVote`, and the loop of `startElection` with the handling of a
-- reply.
use cosi300a.Prelude.{
  ℕ, ◌+◌, ◌-◌, true, false, not, ◌&&◌, ◌||◌, List, [], ◌∷◌, map, pos, minus_one, eq_ℤ, Result, ok,
  panic, Go, pure, gets, reads, modify, ◌>>=◌, ◌>>◌, if◌then◌else◌, ltb, leb,
}
use cosi300a.Raft.Types.{RequestVoteArgs, RequestVoteReply, Raft, Labgob, is_leader}
use cosi300a.Raft.Log.{is_more_updated, get_last_log_term, get_last_log_index, get_majority_count}
use cosi300a.Raft.Node.{
  last_log_index, become_follower, become_candidate, become_leader, persist, others,
}

module _ {C D B : Type 0} (g : Labgob C D B) where
  abbrev refuse_vote : Go (Raft C D B) RequestVoteReply
  refuse_vote = do
    term ← gets (λ rf. rf.current_term)
    persist g
    pure (record { term = term; vote_granted = false })

  -- The part of `RequestVote` below the tests of the term.
  unfoldable pub vote_in_term : RequestVoteArgs → Go (Raft C D B) RequestVoteReply
  unfolding persist
  vote_in_term args = do
    vote_for ← gets (λ rf. rf.vote_for)
    if eq_ℤ vote_for minus_one || eq_ℤ vote_for (pos args.candidate_id)
        then (do
          last_term ← reads (λ rf. get_last_log_term rf.log)
          last_index ← reads last_log_index
          if is_more_updated args.last_log_term args.last_log_index last_term last_index
              then (do
                modify (λ rf. record rf { vote_for = pos args.candidate_id })
                term ← gets (λ rf. rf.current_term)
                persist g
                pure (record { term = term; vote_granted = true }))
              else refuse_vote)
        else refuse_vote

  unfoldable pub request_vote : ℕ → RequestVoteArgs → Go (Raft C D B) RequestVoteReply
  unfolding vote_in_term
  request_vote now args = do
    current ← gets (λ rf. rf.current_term)
    if ltb args.term current then pure (record { term = current; vote_granted = false }) else (do
      modify (λ rf. if ltb rf.current_term args.term then become_follower now args.term rf else rf)
      vote_in_term args)

  abbrev vote_args : Raft C D B → Result RequestVoteArgs
  vote_args rf = elim (get_last_log_index rf.log) [
    | panic ↦ panic
    | ok last ↦ elim (get_last_log_term rf.log) [
      | panic ↦ panic
      | ok term ↦ ok (record {
        term = rf.current_term;
        candidate_id = rf.me;
        last_log_index = last;
        last_log_term = term;
      })
    ]
  ]

  abbrev pub to_all : RequestVoteArgs → List ℕ → List (ℕ × RequestVoteArgs)
  to_all args peers = map (λ j. (j, args)) peers

  -- One round of the loop, `timeout` being the random election timeout: the calls that it starts. A
  -- cluster of one makes none, and reads no log.
  unfoldable pub election_tick : ℕ → ℕ → Go (Raft C D B) (List (ℕ × RequestVoteArgs))
  unfolding persist others
  election_tick now timeout = do
    stamp ← gets (λ rf. rf.election_time_stamp)
    if ltb (now - stamp) timeout then pure [] else (do
      modify (become_candidate now)
      persist g
      rf ← gets (λ rf. rf)
      to ← pure (others rf.me rf.peers 0)
      elim to [
        | [] ↦ pure []
        | j ∷ rest ↦ (do args ← reads vote_args; pure (to_all args (j ∷ rest)))
      ])

  -- A reply to such a call.
  unfoldable pub handle_vote_reply : ℕ → RequestVoteReply → Go (Raft C D B) Unit
  unfolding persist become_leader
  handle_vote_reply now reply = do
    current ← gets (λ rf. rf.current_term)
    if ltb reply.term current
        then pure tt
        else if ltb current reply.term
        then (do modify (become_follower now reply.term); persist g)
        else (do
          modify (λ rf.
              if reply.vote_granted then record rf { vote_count = rf.vote_count + 1 } else rf)
          rf ← gets (λ rf. rf)
          if not (is_leader rf.state) && leb (get_majority_count rf.peers) rf.vote_count
              then (do become_leader now; persist g)
              else pure tt)
