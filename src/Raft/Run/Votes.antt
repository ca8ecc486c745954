-- ===== src/Raft/Run/Votes.antt =====
-- The term and the vote over the operations of src/raft/raft.go.
use cosi300a.Prelude.{ℕ, ◌≡◌, arith, After, Result-cases, ◌++◌, ◌+◌}
use cosi300a.Raft.Types.{
  Raft, Labgob, RequestVoteArgs, RequestVoteReply, AppendEntriesArgs, AppendEntriesReply,
  InstallSnapshotArg, InstallSnapshotReply,
}
use cosi300a.Raft.Node.{start, become_follower, refresh_timestamp}
use cosi300a.Raft.Vote.{request_vote, election_tick, handle_vote_reply}
use cosi300a.Raft.Log.{delete_log_from_index_inclusive}
use cosi300a.Raft.Append.{append_entries, append_in_term, handle_append_reply}
use cosi300a.Raft.Snapshot.{install_snapshot, handle_snapshot_reply, save_snapshot}
use cosi300a.Raft.Run.Defs.{Advances}
use cosi300a.Raft.Run.Effects.{
  follow_commit-OnlyCommits, accept_reply-KeepsPersistent, back_off-KeepsPersistent,
}

module _ {C D B : Type 0} (g : Labgob C D B) where
  -- Below the tests of the term nothing touches the term or the vote.
  append_in_term_keeps :
      (now : ℕ) (rf : Raft C D B) (args : AppendEntriesArgs C)
      → After
          (λ (b : Raft C D B). (b.current_term ≡ rf.current_term) × (b.vote_for ≡ rf.vote_for))
          (append_in_term g now args rf)
  unfolding append_in_term
  append_in_term_keeps now rf args =
      Result-cases (delete_log_from_index_inclusive rf.log (args.prev_log_index + 1))
        (λ kept e. ground (
          arith,
          e,
          follow_commit-OnlyCommits args.leader_commit
              (record rf { election_time_stamp = now; log = kept ++ args.entries }),
        ))
        (λ e. ground (arith, e))

module _ {C D B : Type 0} (g : Labgob C D B) (now : ℕ) (rf : Raft C D B) where
  pub request_vote-Advances :
      (args : RequestVoteArgs) → After (Advances rf) (request_vote g now args rf)
  unfolding request_vote
  request_vote-Advances args = ground arith

  pub append_entries-Advances :
      (args : AppendEntriesArgs C) → After (Advances rf) (append_entries g now args rf)
  unfolding append_entries
  append_entries-Advances args = ground (
    arith,
    append_in_term_keeps g now rf args,
    append_in_term_keeps g now (become_follower now args.term rf) args,
  )

  pub install_snapshot-Advances :
      (arg : InstallSnapshotArg D) → After (Advances rf) (install_snapshot g now arg rf)
  unfolding install_snapshot
  install_snapshot-Advances arg = ground arith

  pub election_tick-Advances : (timeout : ℕ) → After (Advances rf) (election_tick g now timeout rf)
  unfolding election_tick
  election_tick-Advances timeout = ground arith

  pub handle_vote_reply-Advances :
      (reply : RequestVoteReply) → After (Advances rf) (handle_vote_reply g now reply rf)
  unfolding handle_vote_reply
  handle_vote_reply-Advances reply = ground arith

  pub handle_append_reply-Advances :
      (j : ℕ) (args : AppendEntriesArgs C) (reply : AppendEntriesReply)
      → After (Advances rf) (handle_append_reply g now j args reply rf)
  unfolding handle_append_reply
  handle_append_reply-Advances j args reply = ground (
    arith,
    accept_reply-KeepsPersistent j args (refresh_timestamp now rf),
    back_off-KeepsPersistent j args (refresh_timestamp now rf),
  )

  pub handle_snapshot_reply-Advances :
      (server : ℕ) (args : InstallSnapshotArg D) (reply : InstallSnapshotReply)
      → After (Advances rf) (handle_snapshot_reply g now server args reply rf)
  unfolding handle_snapshot_reply
  handle_snapshot_reply-Advances server args reply = ground arith

  pub start-Advances : (c : C) → After (Advances rf) (start g c rf)
  unfolding start
  start-Advances c = ground arith

  pub save_snapshot-Advances :
      (index term : ℕ) (bytes : D) → After (Advances rf) (save_snapshot g index term bytes rf)
  unfolding save_snapshot
  save_snapshot-Advances index term bytes = ground arith
