-- ===== src/Tests/Logs.antt =====
-- A leader of src/raft/raft.go with three entries replicates them to a follower that has another one.
use cosi300a.Prelude.{
  ℕ, ◌+◌, ◌-◌, ◌≡◌, ◌≤◌, ◌<◌, ◌↔◌, refl, true, some, ok, [], ◌∷◌, ◌++◌, map, minus_one, pos, arith,
  length, take, drop, count_ge,
}
use cosi300a.Raft.Types.{entry, command, AppendEntriesArgs, AppendEntriesReply, follower, leader}
use cosi300a.Raft.Log.{get_log_item_at_index, find_match, get_last_log_term, get_majority_count}
use cosi300a.Raft.Append.{append_entries, append_args, follow_commit, handle_append_reply}
use cosi300a.Raft.Contiguous.{first, final, Contiguous}
use cosi300a.Raft.Replicate.{Outcome, replicated}
use cosi300a.Raft.Deliver.{message}
use cosi300a.Raft.Follow.{append_entries_lem}
use cosi300a.Raft.Agree.{replicates, follow_commit-delivers, between}
use cosi300a.Raft.Commit.{leader_commits, new_match}
use cosi300a.Tests.Codec.{Log, codec-IsCodec, Peer, gob, item, dummy, peer}

abbrev pub log : Log
log = dummy ∷ item 1 1 ∷ item 2 2 ∷ item 2 3 ∷ []

abbrev old_log : Log
old_log = dummy ∷ item 1 1 ∷ item 1 2 ∷ []

abbrev pub chief : Peer
chief = record (peer 0 leader 2 (pos 0) log) {
  commit_index = 1;
  next_index = 4 ∷ 2 ∷ 4 ∷ [];
  match_index = 3 ∷ 0 ∷ 0 ∷ [];
}

abbrev behind : Peer
behind = peer 1 follower 1 minus_one old_log

abbrev pub args : AppendEntriesArgs ℕ
args = record {
  term = 2;
  leader_id = 0;
  prev_log_index = 1;
  prev_log_term = 1;
  entries = item 2 2 ∷ item 2 3 ∷ [];
  leader_commit = 1;
}

abbrev pub success : AppendEntriesReply
success = record { term = 2; success = true }

abbrev updated : Peer
updated = record (peer 1 follower 2 minus_one log) {
  commit_index = 1;
  last_applied = 1;
  apply_ch = entry (command 1) 1 1 ∷ [];
  election_time_stamp = 5;
}

pub called : append_args chief 1 ≡ ok (some args)
unfolding append_args cosi300a.Raft.Log.get_dummy_log_index get_log_item_at_index
    cosi300a.Raft.Log.get_append_log_item
called = refl

answered : append_entries gob 5 args behind ≡ ok (success, updated)
unfolding append_entries cosi300a.Raft.Append.append_in_term cosi300a.Raft.Log.get_last_log_index
    cosi300a.Raft.Log.get_dummy_log_index get_log_item_at_index
    cosi300a.Raft.Log.delete_log_from_index_inclusive
answered = refl

middle : find_match (new_match 1 args chief) ≡ ok 3
unfolding find_match
middle = refl

last_term : get_last_log_term log ≡ ok 2
unfolding get_last_log_term
last_term = refl

append_entries_lem_example :
    Outcome gob (append_entries gob 5 args behind) 2 1 (replicated args old_log) 0
append_entries_lem_example =
    append_entries_lem gob 5 args behind (codec-IsCodec 0) (refl, (refl, tt)) (refl, (refl, tt))
      (omega arith)

replicates_example :
    (drop (2 - first old_log) updated.log ≡ drop (2 - first log) log)
    × (take (2 - first old_log) updated.log ≡ take (2 - first old_log) old_log)
    × (final updated.log ≡ final log)
    × (args.prev_log_index + length args.entries ≡ final log)
replicates_example =
    replicates gob (codec-IsCodec 0) chief behind updated 1 2 5 args success
      (refl, (refl, (refl, tt))) (refl, (refl, tt)) refl (omega arith) (omega arith) (omega arith)
      called answered refl

follow_commit-delivers_example :
    (after : Peer) × (follow_commit 2 behind ≡ ok (tt, after))
    × (after.log ≡ behind.log)
    × (after.apply_ch
        ≡ behind.apply_ch
          ++ map message (between behind.log behind.commit_index after.commit_index))
    × Contiguous
        (behind.commit_index + 1)
        (between behind.log behind.commit_index after.commit_index)
    × (behind.commit_index + length (between behind.log behind.commit_index after.commit_index)
        ≡ after.commit_index)
follow_commit-delivers_example =
    follow_commit-delivers 2 behind (refl, (refl, tt)) (omega arith) (omega arith)

leader_commits_example :
    (after : Peer) × (handle_append_reply gob 6 1 args success chief ≡ ok (tt, after))
    × (after.log ≡ chief.log)
    × (after.match_index ≡ new_match 1 args chief)
    × (after.apply_ch
        ≡ chief.apply_ch ++ map message (between chief.log chief.commit_index after.commit_index))
    × Contiguous (chief.commit_index + 1) (between chief.log chief.commit_index after.commit_index)
    × (chief.commit_index + length (between chief.log chief.commit_index after.commit_index)
        ≡ after.commit_index)
    × ((k : ℕ)
        → chief.commit_index < k
        → (k ≤ after.commit_index)
          ↔ (get_majority_count (length chief.match_index) ≤ count_ge k (new_match 1 args chief)))
leader_commits_example =
    leader_commits gob 6 1 3 args success chief (refl, (refl, (refl, tt))) (omega arith)
      (omega arith) last_term (omega arith) (omega arith) refl middle (omega arith) refl refl
