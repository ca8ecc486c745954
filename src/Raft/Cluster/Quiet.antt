-- ===== src/Raft/Cluster/Quiet.antt =====
-- The operations of src/raft/raft.go that make no leader and count no vote.
use cosi300a.Prelude.{
  ℕ, ◌≡◌, ◌≤◌, ◌⊎◌, arith, After, Result-cases, ◌++◌, ◌+◌, ok, set, length, pos, ◌&&◌, nat_eq,
  if◌then◌else◌,
}
use cosi300a.Raft.Types.{
  Raft, Labgob, leader, candidate, RequestVoteReply, RequestVoteArgs, AppendEntriesArgs,
  AppendEntriesReply, InstallSnapshotArg, InstallSnapshotReply,
}
use cosi300a.Raft.Node.{start, make, become_follower, refresh_timestamp}
use cosi300a.Raft.Vote.{request_vote, handle_vote_reply, election_tick}
use cosi300a.Raft.Log.{get_majority_count, find_match, max_int, delete_log_from_index_inclusive}
use cosi300a.Raft.Append.{
  append_entries, append_in_term, accept_reply, back_off, handle_append_reply,
}
use cosi300a.Raft.Snapshot.{install_snapshot, handle_snapshot_reply, save_snapshot}
use cosi300a.Raft.Run.Effects.{follow_commit-OnlyCommits, send_commit_message-OnlyCommits}

-- The peer is the same; one that leads has led in that term; and it has counted no more votes in it.
pub record Quiet {C D B : Type 0} (a b : Raft C D B) : Type 0 where
  pub me : b.me ≡ a.me
  pub peers : b.peers ≡ a.peers
  pub leads : b.state ≡ leader → (a.state ≡ leader) × (b.current_term ≡ a.current_term)
  pub counted :
      (b.vote_count ≡ 0) ⊎ ((b.current_term ≡ a.current_term) × (b.vote_count ≤ a.vote_count))

-- The role, too, stays.
pub record KeepsRole {C D B : Type 0} (a b : Raft C D B) : Type 0 where
  pub me : b.me ≡ a.me
  pub peers : b.peers ≡ a.peers
  pub state : b.state ≡ a.state
  pub current_term : b.current_term ≡ a.current_term
  pub vote_count : b.vote_count ≡ a.vote_count

module _ {C D B : Type 0} where
  accept_reply-KeepsRole :
      (j : ℕ) (args : AppendEntriesArgs C) (rf : Raft C D B)
      → After (KeepsRole rf) (accept_reply j args rf)
  unfolding accept_reply
  accept_reply-KeepsRole j args rf =
      let matched = set rf.match_index j (args.prev_log_index + length args.entries) in
      Result-cases (find_match matched)
        (λ m e.
          let to = max_int rf.commit_index m in
          ground (
            arith,
            e,
            send_commit_message-OnlyCommits (rf.commit_index + 1) to (record rf {
              next_index = set rf.next_index j (args.prev_log_index + length args.entries + 1);
              match_index = matched;
              commit_index = to;
            }),
          ))
        (λ e. ground (arith, e))

  back_off-KeepsRole :
      (j : ℕ) (args : AppendEntriesArgs C) (rf : Raft C D B)
      → After (KeepsRole rf) (back_off j args rf)
  unfolding back_off
  back_off-KeepsRole j args rf = ground arith

module _ {C D B : Type 0} (g : Labgob C D B) where
  pub append_in_term-KeepsRole :
      (now : ℕ) (rf : Raft C D B) (args : AppendEntriesArgs C)
      → After (KeepsRole rf) (append_in_term g now args rf)
  unfolding append_in_term
  append_in_term-KeepsRole now rf args =
      Result-cases (delete_log_from_index_inclusive rf.log (args.prev_log_index + 1))
        (λ kept e. ground (
          arith,
          e,
          follow_commit-OnlyCommits args.leader_commit
              (record rf { election_time_stamp = now; log = kept ++ args.entries }),
        ))
        (λ e. ground (arith, e))

module _ {C D B : Type 0} (g : Labgob C D B) (now : ℕ) (rf : Raft C D B) where
  pub request_vote-Quiet : (args : RequestVoteArgs) → After (Quiet rf) (request_vote g now args rf)
  unfolding request_vote
  request_vote-Quiet args = ground arith

  pub append_entries-Quiet :
      (args : AppendEntriesArgs C) → After (Quiet rf) (append_entries g now args rf)
  unfolding append_entries
  append_entries-Quiet args = ground (
    arith,
    append_in_term-KeepsRole g now rf args,
    append_in_term-KeepsRole g now (become_follower now args.term rf) args,
  )

  pub install_snapshot-Quiet :
      (arg : InstallSnapshotArg D) → After (Quiet rf) (install_snapshot g now arg rf)
  unfolding install_snapshot
  install_snapshot-Quiet arg = ground arith

  pub handle_append_reply-Quiet :
      (j : ℕ) (args : AppendEntriesArgs C) (reply : AppendEntriesReply)
      → After (Quiet rf) (handle_append_reply g now j args reply rf)
  unfolding handle_append_reply
  handle_append_reply-Quiet j args reply = ground (
    arith,
    accept_reply-KeepsRole j args (refresh_timestamp now rf),
    back_off-KeepsRole j args (refresh_timestamp now rf),
  )

  pub handle_snapshot_reply-Quiet :
      (server : ℕ) (args : InstallSnapshotArg D) (reply : InstallSnapshotReply)
      → After (Quiet rf) (handle_snapshot_reply g now server args reply rf)
  unfolding handle_snapshot_reply
  handle_snapshot_reply-Quiet server args reply = ground arith

  pub start-Quiet : (c : C) → After (Quiet rf) (start g c rf)
  unfolding start
  start-Quiet c = ground arith

  pub save_snapshot-Quiet :
      (index term : ℕ) (bytes : D) → After (Quiet rf) (save_snapshot g index term bytes rf)
  unfolding save_snapshot
  save_snapshot-Quiet index term bytes = ground arith

  pub make-Quiet : (b : Raft C D B) → make g rf.peers rf.me rf.persister now ≡ ok b → Quiet rf b
  unfolding make
  make-Quiet b e = ground arith

-- What a step does to a peer that counts `gain` more votes.
pub record Gains {C D B : Type 0} (gain : ℕ) (a b : Raft C D B) : Type 0 where
  pub me : b.me ≡ a.me
  pub peers : b.peers ≡ a.peers
  pub leads :
      b.state ≡ leader
      → (b.current_term ≡ a.current_term)
        × ((a.state ≡ leader) ⊎ (get_majority_count a.peers ≤ a.vote_count + gain))
  pub counted :
      (b.vote_count ≡ 0)
      ⊎ ((b.current_term ≡ a.current_term) × (b.vote_count ≤ a.vote_count + gain))

abbrev pub gain_of : {C D B : Type 0} → RequestVoteReply → Raft C D B → ℕ
gain_of reply rf = if reply.vote_granted && nat_eq reply.term rf.current_term then 1 else 0

-- What a round of the election loop does, if it campaigns.
pub record Campaigns {C D B : Type 0} (a b : Raft C D B) : Type 0 where
  pub me : b.me ≡ a.me
  pub peers : b.peers ≡ a.peers
  pub state : b.state ≡ candidate
  pub current_term : b.current_term ≡ a.current_term + 1
  pub vote_for : b.vote_for ≡ pos a.me
  pub vote_count : b.vote_count ≡ 1

module _ {C D B : Type 0} (g : Labgob C D B) (now : ℕ) (rf : Raft C D B) where
  pub handle_vote_reply-Gains :
      (reply : RequestVoteReply)
      → After (Gains (gain_of reply rf) rf) (handle_vote_reply g now reply rf)
  unfolding handle_vote_reply
  handle_vote_reply-Gains reply = ground arith

  pub election_tick-Campaigns :
      (timeout : ℕ)
      → After (λ (b : Raft C D B). (b ≡ rf) ⊎ Campaigns rf b) (election_tick g now timeout rf)
  unfolding election_tick
  election_tick-Campaigns timeout = ground arith

  pub Quiet-Gains : (b : Raft C D B) → Quiet rf b → Gains 0 rf b
  Quiet-Gains b q = ground (arith, q.leads, q.counted)
