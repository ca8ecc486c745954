-- ===== src/Tests/Rounds.antt =====
-- A leader of src/raft/raft.go that finds where a peer's log parts from its own, wins its election
-- before, and stays within its log after.
use cosi300a.Prelude.{ℕ, ◌≡◌, refl, ok, List, [], ◌∷◌, arith, minus_one, true, false}
use cosi300a.Raft.Types.{RequestVoteArgs, RequestVoteReply, follower, leader, entry, command}
use cosi300a.Raft.Log.{get_majority_count}
use cosi300a.Raft.Append.{handle_append_reply}
use cosi300a.Raft.Vote.{election_tick}
use cosi300a.Raft.Rounds.Exchange.{IsBounded, IsPair}
use cosi300a.Raft.Rounds.Ends.{IsReached, exchanges_end}
use cosi300a.Raft.Wins.{hear_votes, wins}
use cosi300a.Raft.Bounds.Run.{Office, IsInOffice, office-IsBounded}
use cosi300a.Tests.Codec.{Log, codec-IsCodec, Peer, gob, item, dummy, peer}
use cosi300a.Tests.Logs.{chief, args, success, called}

abbrev other_log : Log
other_log = dummy ∷ item 1 1 ∷ item 1 2 ∷ item 1 3 ∷ []

abbrev other : Peer
other = peer 1 follower 1 minus_one other_log

abbrev head : Peer
head = record chief { next_index = 4 ∷ 4 ∷ 4 ∷ [] }

chief-IsBounded : IsBounded chief
chief-IsBounded = record {
  matches = (omega arith, (omega arith, (omega arith, tt)));
  committed = omega arith;
}

pair : IsPair 1 4 head other dummy dummy
pair = record {
  leads = (refl, (refl, (refl, tt)));
  follows = (refl, (refl, (refl, tt)));
  term = omega arith;
  head = refl;
  head' = refl;
  head_index = refl;
  head_term = refl;
  next_at = refl;
  lo = omega arith;
  hi = omega arith;
  next_room = omega arith;
  match_room = omega arith;
  bounded = record {
    matches = (omega arith, (omega arith, (omega arith, tt)));
    committed = omega arith;
  };
}

exchanges_end_example :
    (l f : Peer) × IsReached gob (codec-IsCodec 0) 7 1 dummy dummy 4 4 head other l f
exchanges_end_example =
    exchanges_end gob (codec-IsCodec 0) 7 1 dummy dummy 4 4 head other pair (omega arith)

abbrev rested : Peer
rested = peer 0 follower 0 minus_one (dummy ∷ [])

abbrev replies : List (ℕ × RequestVoteReply)
replies =
    (1001, record { term = 0; vote_granted = false })
    ∷ (1002, record { term = 1; vote_granted = true })
    ∷ []

wins_example :
    (calls : List (ℕ × RequestVoteArgs)) × (runner : Peer) × (won : Peer) × (election_tick gob 1000
        200 rested
      ≡ ok (calls, runner))
    × (hear_votes gob replies runner ≡ ok (tt, won))
    × (won.state ≡ leader)
    × (won.current_term ≡ 1)
    × (won.log ≡ dummy ∷ [])
wins_example =
    wins gob (codec-IsCodec 0) 1000 200 rested replies tt (omega arith) (omega arith)
      (omega arith, (omega arith, tt)) (omega arith)

abbrev done : Peer
done = record chief {
  next_index = 4 ∷ 4 ∷ 4 ∷ [];
  match_index = 3 ∷ 3 ∷ 0 ∷ [];
  commit_index = 3;
  last_applied = 3;
  election_time_stamp = 8;
  apply_ch = entry (command 2) 2 2 ∷ entry (command 3) 3 2 ∷ [];
}

heard : handle_append_reply gob 8 1 args success chief ≡ ok (tt, done)
unfolding handle_append_reply cosi300a.Raft.Log.find_match cosi300a.Raft.Log.get_last_log_term
heard = refl

office : Office gob chief (args ∷ []) done
office = Office.hears (Office.calls Office.takes 1 args called) 0 8 1 args success done refl heard

office-IsBounded_example : IsInOffice gob chief (args ∷ []) done
office-IsBounded_example =
    office-IsBounded gob chief done (args ∷ []) (refl, (refl, (refl, tt))) chief-IsBounded office
