-- ===== src/Tests/Election.antt =====
-- An election in a cluster of three peers of src/raft/raft.go.
use cosi300a.Prelude.{ℕ, ◌≡◌, refl, true, false, ok, [], ◌∷◌, minus_one, pos, arith, replicate}
use cosi300a.Raft.Types.{RequestVoteArgs, RequestVoteReply, follower, candidate, leader}
use cosi300a.Raft.Persister.{make_persister}
use cosi300a.Raft.Node.{make}
use cosi300a.Raft.Vote.{request_vote, election_tick, handle_vote_reply}
use cosi300a.Raft.Cluster.Steps.{Cluster, with_node, mark, Votes, Moved, Reached}
use cosi300a.Raft.Cluster.Safety.{IsStart}
use cosi300a.Tests.Codec.{Encoded, Log, Peer, gob, dummy, peer}

abbrev log : Log
log = dummy ∷ []

abbrev pub System : Type 0
System = Cluster ℕ ℕ (Encoded ℕ ℕ)

abbrev no_votes : Votes
no_votes t j c = false

abbrev pub first : System
first = record {
  nodes = λ i. peer i follower 0 minus_one log;
  answered = no_votes;
  counted = no_votes;
}

abbrev pub runner : Peer
runner = record (peer 0 candidate 1 (pos 0) log) { vote_count = 1; election_time_stamp = 1000 }

abbrev pub call : RequestVoteArgs
call = record { term = 1; candidate_id = 0; last_log_index = 0; last_log_term = 0 }

abbrev pub granted : RequestVoteReply
granted = record { term = 1; vote_granted = true }

abbrev pub voter : Peer
voter = record (peer 1 follower 1 (pos 0) log) { election_time_stamp = 1001 }

abbrev pub chief : Peer
chief = record (peer 0 leader 1 (pos 0) log) {
  match_index = replicate 3 0;
  next_index = replicate 3 1;
  election_time_stamp = 1002;
}

abbrev pub running : System
running = record {
  nodes = with_node first.nodes 0 runner;
  answered = mark true 1 0 0 no_votes;
  counted = mark true 1 0 0 no_votes;
}

abbrev pub answered : System
answered = record running {
  nodes = with_node running.nodes 1 voter;
  answered = mark true 1 1 0 running.answered;
}

abbrev pub decided : System
decided = record answered {
  nodes = with_node answered.nodes 0 chief;
  counted = mark true 1 1 0 answered.counted;
}

pub runs : election_tick gob 1000 200 (first.nodes 0) ≡ ok ((1, call) ∷ (2, call) ∷ [], runner)
unfolding election_tick cosi300a.Raft.Log.get_last_log_index cosi300a.Raft.Log.get_last_log_term
runs = refl

pub votes : request_vote gob 1001 call (running.nodes 1) ≡ ok (granted, voter)
unfolding request_vote cosi300a.Raft.Log.get_last_log_term
votes = refl

pub wins : handle_vote_reply gob 1002 granted (answered.nodes 0) ≡ ok (tt, chief)
unfolding handle_vote_reply cosi300a.Raft.Log.get_last_log_index
wins = refl

made : (i : ℕ) → make gob 3 i (make_persister Encoded.nil) 0 ≡ ok (first.nodes i)
unfolding make cosi300a.Raft.Log.get_dummy_log_index
made i = refl

pub first-IsStart : IsStart gob 3 first
first-IsStart = record {
  made = λ i. (make_persister Encoded.nil, 0, made i);
  unanswered = λ t j c. refl;
  uncounted = λ t j c. refl;
}

pub elects : Reached gob 3 first decided
elects =
    Reached.move
      (Reached.move
        (Reached.move Reached.begin
          (Moved.campaign 0 1000 200 ((1, call) ∷ (2, call) ∷ []) runner runs))
        (Moved.vote 1 1001 call granted voter votes))
      (Moved.hear 0 1 1002 granted chief wins (omega arith) (λ e. refl) (λ e. refl))
