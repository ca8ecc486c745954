-- ===== src/Raft/Run/OneVote.antt =====
-- A peer of src/raft/raft.go votes for one candidate in a term, and comes back from a crash as it was.
use cosi300a.Prelude.{ℕ, ◌≤◌, ◌<◌, ◌≡◌, ◌⊎◌, true, ok, refl, minus_one, pos, arith}
use cosi300a.Raft.Types.{Raft, Labgob, IsCodec, RequestVoteArgs, RequestVoteReply, follower}
use cosi300a.Raft.Log.{get_last_log_index, get_last_log_term, get_dummy_log_index}
use cosi300a.Raft.Node.{make, fresh}
use cosi300a.Raft.Vote.{request_vote}
use cosi300a.Raft.Run.Defs.{Advances, IsDurable, persistent}
use cosi300a.Raft.Run.Votes.{request_vote-Advances}
use cosi300a.Raft.Run.Durable.{request_vote-IsDurable}
use cosi300a.Raft.Run.Steps.{Reach, Reach-Advances, Reach-IsDurable}

module _ {C D B : Type 0} (g : Labgob C D B) where
  -- A granted vote says: the peer has voted for the caller, in the caller's term, which is the term
  -- of the reply; and before the call it was in an earlier term, or had not voted, or had voted for
  -- the caller.
  pub request_vote-granted :
      (now : ℕ) (args : RequestVoteArgs) (rf rf' : Raft C D B) (reply : RequestVoteReply)
      → request_vote g now args rf ≡ ok (reply, rf')
      → reply.vote_granted ≡ true
      → (rf'.vote_for ≡ pos args.candidate_id)
        × (rf'.current_term ≡ args.term)
        × (reply.term ≡ args.term)
        × ((rf.current_term < args.term)
            ⊎ (rf.vote_for ≡ minus_one)
            ⊎ (rf.vote_for ≡ pos args.candidate_id))
  unfolding request_vote
  request_vote-granted now args rf rf' reply h v = ground arith

  -- A granted vote goes to a caller whose log is at least as up to date as the peer's, by the term
  -- and then the index of its last entry, and leaves the peer's log as it was.
  pub request_vote-up_to_date :
      (now : ℕ) (args : RequestVoteArgs) (rf rf' : Raft C D B) (reply : RequestVoteReply)
      (last term : ℕ)
      → request_vote g now args rf ≡ ok (reply, rf')
      → reply.vote_granted ≡ true
      → get_last_log_index rf.log ≡ ok last
      → get_last_log_term rf.log ≡ ok term
      → ((term < args.last_log_term) ⊎ ((term ≡ args.last_log_term) × (last ≤ args.last_log_index)))
        × (rf'.log ≡ rf.log)
  unfolding request_vote
  request_vote-up_to_date now args rf rf' reply last term h v el et = ground arith

module _ {C D B : Type 0} (g : Labgob C D B) (c : IsCodec g) where
  -- A peer whose persister holds its state, and that grants a vote, then goes through any run of
  -- its operations, crashes and restarts included, and grants a vote again in the same term, grants
  -- it to the same candidate. labgob is one that decodes what it encodes.
  pub one_vote_per_term :
      (a b d e : Raft C D B) (now1 now2 : ℕ) (args1 args2 : RequestVoteArgs)
      (reply1 reply2 : RequestVoteReply)
      → IsDurable g a
      → request_vote g now1 args1 a ≡ ok (reply1, b)
      → reply1.vote_granted ≡ true
      → Reach g b d
      → request_vote g now2 args2 d ≡ ok (reply2, e)
      → reply2.vote_granted ≡ true
      → args1.term ≡ args2.term
      → args1.candidate_id ≡ args2.candidate_id
  one_vote_per_term a b d e now1 now2 args1 args2 reply1 reply2 da h1 v1 r h2 v2 t = ground (
    arith,
    request_vote-granted g now1 args1 a b reply1 h1 v1,
    request_vote-granted g now2 args2 d e reply2 h2 v2,
    request_vote-Advances g now2 d args2,
    kept,
  )
    where
      db : IsDurable g b
      db = ground (arith, request_vote-IsDurable g c now1 a da args1)

      kept : Advances b d
      kept = Reach-Advances g c db r

  -- A peer that crashes anywhere in a run comes back with the same term, vote and log, as a
  -- follower, and with both commit positions at the index of the log's first entry.
  pub recovers :
      (a b : Raft C D B) (now dummy : ℕ)
      → IsDurable g a
      → Reach g a b
      → get_dummy_log_index b.log ≡ ok dummy
      → (r : Raft C D B) × (make g b.peers b.me b.persister now ≡ ok r)
        × (persistent r ≡ persistent b)
        × (r.state ≡ follower)
        × (r.commit_index ≡ dummy)
        × (r.last_applied ≡ dummy)
  unfolding make
  recovers a b now dummy d r e =
      (recovered, ground (arith, db.saved, db.nonempty), refl, refl, refl, refl)
    where
      db : IsDurable g b
      db = Reach-IsDurable g c d r

      recovered : Raft C D B
      recovered = record (fresh g b.peers b.me b.persister now) {
        current_term = b.current_term;
        vote_for = b.vote_for;
        log = b.log;
        commit_index = dummy;
        last_applied = dummy;
      }
