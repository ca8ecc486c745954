-- ===== src/Tests/Votes.antt =====
-- Votes and crashes of a peer of src/raft/raft.go.
use cosi300a.Prelude.{◌≡◌, ◌⊎◌, ◌≤◌, ◌<◌, refl, true, ok, [], ◌∷◌, minus_one, pos}
use cosi300a.Raft.Types.{RequestVoteArgs, RequestVoteReply, follower}
use cosi300a.Raft.Node.{make}
use cosi300a.Raft.Vote.{request_vote}
use cosi300a.Raft.Log.{get_dummy_log_index, get_last_log_index, get_last_log_term}
use cosi300a.Raft.Run.Defs.{IsDurable, Advances, persistent}
use cosi300a.Raft.Run.Steps.{Step, Reach, Reach-IsDurable, Reach-Advances}
use cosi300a.Raft.Run.OneVote.{one_vote_per_term, request_vote-up_to_date, recovers}
use cosi300a.Tests.Codec.{Log, codec-IsCodec, Peer, gob, item, dummy, saved, peer}

abbrev log : Log
log = dummy ∷ item 1 1 ∷ []

abbrev voter : Peer
voter = peer 0 follower 1 minus_one log

abbrev call : RequestVoteArgs
call = record { term = 2; candidate_id = 1; last_log_index = 1; last_log_term = 1 }

-- The candidate calls again, with a longer log.
abbrev recall : RequestVoteArgs
recall = record { term = 2; candidate_id = 1; last_log_index = 4; last_log_term = 2 }

abbrev granted : RequestVoteReply
granted = record { term = 2; vote_granted = true }

abbrev voted : Peer
voted = record (peer 0 follower 2 (pos 1) log) { election_time_stamp = 5 }

abbrev restarted : Peer
restarted = record (peer 0 follower 2 (pos 1) log) { election_time_stamp = 9 }

voter-IsDurable : IsDurable gob voter
voter-IsDurable = record { saved = refl; nonempty = refl }

voted-granted : request_vote gob 5 call voter ≡ ok (granted, voted)
unfolding request_vote get_last_log_term
voted-granted = refl

restarts : make gob 3 0 (saved 2 (pos 1) log) 9 ≡ ok restarted
unfolding make get_dummy_log_index
restarts = refl

votes_again : request_vote gob 10 recall restarted ≡ ok (granted, restarted)
unfolding request_vote get_last_log_term
votes_again = refl

run : Reach gob voted restarted
run = Reach.next Reach.here (Step.restarted 9 restarts)

run_with_vote : Reach gob voter restarted
run_with_vote =
    Reach.next (Reach.next Reach.here (Step.voted 5 call granted voted-granted))
      (Step.restarted 9 restarts)

starts : get_dummy_log_index log ≡ ok 0
unfolding get_dummy_log_index
starts = refl

last : get_last_log_index log ≡ ok 1
unfolding get_last_log_index
last = refl

term : get_last_log_term log ≡ ok 1
unfolding get_last_log_term
term = refl

one_vote_per_term_example : call.candidate_id ≡ recall.candidate_id
one_vote_per_term_example =
    one_vote_per_term gob (codec-IsCodec 0) voter voted restarted restarted 5 10 call recall granted
      granted voter-IsDurable voted-granted refl run votes_again refl refl

Reach-IsDurable_example : IsDurable gob restarted
Reach-IsDurable_example = Reach-IsDurable gob (codec-IsCodec 0) voter-IsDurable run_with_vote

Reach-Advances_example : Advances voter restarted
Reach-Advances_example = Reach-Advances gob (codec-IsCodec 0) voter-IsDurable run_with_vote

recovers_example :
    (r : Peer) × (make gob 3 0 restarted.persister 20 ≡ ok r)
    × (persistent r ≡ persistent restarted)
    × (r.state ≡ follower)
    × (r.commit_index ≡ 0)
    × (r.last_applied ≡ 0)
recovers_example =
    recovers gob (codec-IsCodec 0) voter restarted 20 0 voter-IsDurable run_with_vote starts

request_vote-up_to_date_example :
    ((1 < call.last_log_term) ⊎ ((1 ≡ call.last_log_term) × (1 ≤ call.last_log_index)))
    × (voted.log ≡ voter.log)
request_vote-up_to_date_example =
    request_vote-up_to_date gob 5 call voter voted granted 1 1 voted-granted refl last term
