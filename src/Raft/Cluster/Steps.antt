-- ===== src/Raft/Cluster/Steps.antt =====
-- A cluster of peers of src/raft/raft.go and the votes among them. Any call may reach any peer at any
-- time; a reply to a call for a vote reaches its candidate at most once.
use cosi300a.Prelude.{ℕ, ◌≡◌, ◌<◌, Bool, true, false, ok, List, ◌&&◌, if◌then◌else◌, nat_eq, ltb}
use cosi300a.Raft.Types.{Raft, Labgob, RequestVoteArgs, RequestVoteReply}
use cosi300a.Raft.Vote.{request_vote, election_tick, handle_vote_reply}
use cosi300a.Raft.Run.Steps.{Step, voted, campaigned, heard_vote}

-- `answered t j c`: peer `j` has granted its vote in term `t` to `c`; `counted t j c`: its reply has
-- reached `c`.
abbrev pub Votes : Type 0
Votes = ℕ → ℕ → ℕ → Bool

pub record Cluster (C D B : Type 0) : Type 0 where
  pub nodes : ℕ → Raft C D B
  pub answered : Votes
  pub counted : Votes

abbrev pub with_node {ℓ} : {A : Type ℓ} → (ℕ → A) → ℕ → A → ℕ → A
with_node nodes i b k = if nat_eq i k then b else nodes k

-- One more vote, if it is granted.
abbrev pub mark : Bool → ℕ → ℕ → ℕ → Votes → Votes
mark granted t j c votes t' j' c' =
    if granted && nat_eq t t' && nat_eq j j' && nat_eq c c' then true else votes t' j' c'

module _ {C D B : Type 0} (g : Labgob C D B) where
  -- The steps of one peer that are no part of an election.
  abbrev pub IsBackground : {a b : Raft C D B} → Step g a b → Type 0
  IsBackground (voted now args reply e) = ⊥
  IsBackground (campaigned now timeout calls e) = ⊥
  IsBackground (heard_vote now reply e) = ⊥
  IsBackground _ = Unit

  -- A step of a cluster of `n` peers.
  pub data Moved (n : ℕ) (s : Cluster C D B) : Cluster C D B → Type 0 where
    vote :
        (i now : ℕ) (args : RequestVoteArgs) (reply : RequestVoteReply) (b : Raft C D B)
        → request_vote g now args (s.nodes i) ≡ ok (reply, b)
        → Moved n s (record s {
          nodes = with_node s.nodes i b;
          answered = mark reply.vote_granted args.term i args.candidate_id s.answered;
        })
    campaign :
        (i now timeout : ℕ) (calls : List (ℕ × RequestVoteArgs)) (b : Raft C D B)
        → election_tick g now timeout (s.nodes i) ≡ ok (calls, b)
        → Moved n s (record {
          nodes = with_node s.nodes i b;
          answered =
              mark (ltb (s.nodes i).current_term b.current_term) b.current_term i i s.answered;
          counted = mark (ltb (s.nodes i).current_term b.current_term) b.current_term i i s.counted;
        })
    hear :
        (i j now : ℕ) (reply : RequestVoteReply) (b : Raft C D B)
        → handle_vote_reply g now reply (s.nodes i) ≡ ok (tt, b)
        → j < n
        → (reply.vote_granted ≡ true → s.answered reply.term j i ≡ true)
        → (reply.vote_granted ≡ true → s.counted reply.term j i ≡ false)
        → Moved n s (record s {
          nodes = with_node s.nodes i b;
          counted = mark reply.vote_granted reply.term j i s.counted;
        })
    background :
        (i : ℕ) (b : Raft C D B) (step : Step g (s.nodes i) b)
        → IsBackground step
        → Moved n s (record s { nodes = with_node s.nodes i b })

  pub data Reached (n : ℕ) (s : Cluster C D B) : Cluster C D B → Type 0 where
    begin : Reached n s s
    move : {t u : Cluster C D B} → Reached n s t → Moved n t u → Reached n s u
