-- ===== src/Tests/Matching.antt =====
-- Two commands of a leader of src/raft/raft.go reach a follower, and both send them to their services.
use cosi300a.Prelude.{ℕ, ◌≡◌, refl, true, ok, List, [], ◌∷◌, pos, arith, ◌++◌}
use cosi300a.Raft.Types.{AppendEntriesArgs, AppendEntriesReply, Interface, command, entry}
use cosi300a.Raft.Log.{get_log_item_at_index}
use cosi300a.Raft.Node.{start}
use cosi300a.Raft.Append.{append_tick, append_entries, handle_append_reply}
use cosi300a.Raft.Run.Steps.{started, heard_append}
use cosi300a.Raft.Cluster.Steps.{with_node, Moved}
use cosi300a.Raft.Matching.Network.{Network, Wired, Ran}
use cosi300a.Raft.Matching.Safety.{IsNew, logs_agree, sent-IsCommand, sent_agree}
use cosi300a.Tests.Codec.{Encoded, codec-IsCodec, Peer, gob, dummy, item, saved}
use cosi300a.Tests.Election.{
  System, first, runner, call, granted, voter, chief, decided, runs, votes, wins, first-IsStart,
}

abbrev Net : Type 0
Net = Network ℕ ℕ (Encoded ℕ ℕ)

abbrev wire : System → List (ℕ × AppendEntriesArgs ℕ) → Net
wire cluster appends = record { cluster = cluster; appends = appends; installs = [] }

abbrev one : Peer
one = record chief {
  log = dummy ∷ item 1 1 ∷ [];
  match_index = 1 ∷ 0 ∷ 0 ∷ [];
  persister = saved 1 (pos 0) (dummy ∷ item 1 1 ∷ []);
}

abbrev two : Peer
two = record chief {
  log = dummy ∷ item 1 1 ∷ item 1 2 ∷ [];
  match_index = 2 ∷ 0 ∷ 0 ∷ [];
  persister = saved 1 (pos 0) (dummy ∷ item 1 1 ∷ item 1 2 ∷ []);
}

starts_one : start gob 1 chief ≡ ok ((pos 1, pos 1, true), one)
unfolding start cosi300a.Raft.Log.get_last_log_index
starts_one = refl

starts_two : start gob 2 one ≡ ok ((pos 2, pos 1, true), two)
unfolding start cosi300a.Raft.Log.get_last_log_index
starts_two = refl

abbrev args : AppendEntriesArgs ℕ
args = record {
  term = 1;
  leader_id = 0;
  prev_log_index = 0;
  prev_log_term = 0;
  entries = item 1 1 ∷ item 1 2 ∷ [];
  leader_commit = 0;
}

abbrev calls : List (ℕ × AppendEntriesArgs ℕ)
calls = (1, args) ∷ (2, args) ∷ []

sends : append_tick two ≡ ok calls
unfolding append_tick cosi300a.Raft.Log.get_dummy_log_index cosi300a.Raft.Log.get_log_item_at_index
    cosi300a.Raft.Log.get_append_log_item
sends = refl

abbrev success : AppendEntriesReply
success = record { term = 1; success = true }

abbrev behind : Peer
behind = record voter {
  log = dummy ∷ item 1 1 ∷ item 1 2 ∷ [];
  persister = saved 1 (pos 0) (dummy ∷ item 1 1 ∷ item 1 2 ∷ []);
  election_time_stamp = 1003;
}

takes : append_entries gob 1003 args voter ≡ ok (success, behind)
unfolding append_entries cosi300a.Raft.Append.append_in_term cosi300a.Raft.Log.get_last_log_index
    cosi300a.Raft.Log.get_dummy_log_index cosi300a.Raft.Log.get_log_item_at_index
    cosi300a.Raft.Log.delete_log_from_index_inclusive
takes = refl

abbrev ahead : Peer
ahead = record two {
  next_index = 1 ∷ 3 ∷ 1 ∷ [];
  match_index = 2 ∷ 2 ∷ 0 ∷ [];
  commit_index = 2;
  last_applied = 2;
  apply_ch = entry (command 1) 1 1 ∷ entry (command 2) 2 1 ∷ [];
  election_time_stamp = 1004;
}

hears : handle_append_reply gob 1004 1 args success two ≡ ok (tt, ahead)
unfolding handle_append_reply cosi300a.Raft.Log.find_match cosi300a.Raft.Log.get_last_log_term
hears = refl

abbrev later : AppendEntriesArgs ℕ
later = record args { prev_log_index = 2; prev_log_term = 1; entries = []; leader_commit = 2 }

abbrev later_calls : List (ℕ × AppendEntriesArgs ℕ)
later_calls = (1, later) ∷ (2, record args { leader_commit = 2 }) ∷ []

sends_again : append_tick ahead ≡ ok later_calls
unfolding append_tick cosi300a.Raft.Log.get_dummy_log_index cosi300a.Raft.Log.get_log_item_at_index
    cosi300a.Raft.Log.get_append_log_item
sends_again = refl

abbrev caught_up : Peer
caught_up = record behind {
  commit_index = 2;
  last_applied = 2;
  apply_ch = entry (command 1) 1 1 ∷ entry (command 2) 2 1 ∷ [];
  election_time_stamp = 1005;
}

commits : append_entries gob 1005 later behind ≡ ok (success, caught_up)
unfolding append_entries cosi300a.Raft.Append.append_in_term cosi300a.Raft.Log.get_last_log_index
    cosi300a.Raft.Log.get_dummy_log_index cosi300a.Raft.Log.get_log_item_at_index
    cosi300a.Raft.Log.delete_log_from_index_inclusive
commits = refl

abbrev move : System → ℕ → Peer → System
move s i b = record s { nodes = with_node s.nodes i b }

abbrev started_one : System
started_one = move decided 0 one

abbrev started_two : System
started_two = move started_one 0 two

abbrev taken : System
taken = move started_two 1 behind

abbrev heard : System
heard = move taken 0 ahead

abbrev caught : System
caught = move heard 1 caught_up

abbrev last : Net
last = wire caught (later_calls ++ calls)

elected : Ran gob 3 (wire first []) (wire decided [])
elected =
    Ran.ran
      (Ran.ran
        (Ran.ran Ran.unmoved (
          Wired.local (Moved.campaign 0 1000 200 ((1, call) ∷ (2, call) ∷ []) runner runs)
            (omega arith)))
        (Wired.local (Moved.vote 1 1001 call granted voter votes) (omega arith)))
      (Wired.local (Moved.hear 0 1 1002 granted chief wins (omega arith) (λ e. refl) (λ e. refl))
        (omega arith))

replicated : Ran gob 3 (wire first []) (wire taken calls)
replicated =
    Ran.ran
      (Ran.ran
        (Ran.ran
          (Ran.ran elected (
            Wired.local (Moved.background 0 one (started 1 (pos 1, pos 1, true) starts_one) tt)
              (omega arith, tt)))
          (Wired.local (Moved.background 0 two (started 2 (pos 2, pos 1, true) starts_two) tt)
            (omega arith, tt)))
        (Wired.send_appends 0 calls (omega arith) sends))
      (Wired.receive_append 1 0 1003 args success behind (omega arith) refl takes)

committed : Ran gob 3 (wire first []) last
committed =
    Ran.ran
      (Ran.ran
        (Ran.ran replicated (
          Wired.local (Moved.background 0 ahead (heard_append 1004 1 args success hears) tt)
            (omega arith, tt)))
        (Wired.send_appends 0 later_calls (omega arith) sends_again))
      (Wired.receive_append 1 0 1005 later success caught_up (omega arith) refl commits)

first-IsNew : IsNew gob 3 (wire first [])
first-IsNew = record {
  start = first-IsStart;
  empty = λ i lt. (dummy, refl);
  no_appends = refl;
  no_installs = refl;
}

found :
    (b : Peer)
    → (b.log ≡ dummy ∷ item 1 1 ∷ item 1 2 ∷ [])
    → (get_log_item_at_index b.log 1 ≡ ok (item 1 1))
      × (get_log_item_at_index b.log 2 ≡ ok (item 1 2))
unfolding get_log_item_at_index
found b e = rw e (refl, refl)

logs_agree_example : item 1 1 ≡ item 1 1
logs_agree_example =
    logs_agree gob (codec-IsCodec 0) 3 (wire first []) last 0 1 1 2 (item 1 2) (item 1 2) (item 1 1)
      (item 1 1) first-IsNew committed (omega arith) (omega arith) (found ahead refl).1
      (found caught_up refl).1 refl (omega arith) (omega arith) (omega arith) (found ahead refl).0
      (found caught_up refl).0

sent-IsCommand_example : (v : ℕ) × (command 2 ≡ command v)
sent-IsCommand_example =
    sent-IsCommand gob (codec-IsCodec 0) 3 (wire first []) last 1 1 2 1 (command 2) first-IsNew
      committed (omega arith) refl

abbrev second : Interface ℕ
second = command 2

sent_agree_example : second ≡ second
sent_agree_example =
    sent_agree gob (codec-IsCodec 0) 3 (wire first []) last 0 1 1 1 2 1 second second first-IsNew
      committed (omega arith) (omega arith) refl refl
