-- ===== src/Raft/Run/Durable.antt =====
-- Every operation of src/raft/raft.go persists what it changes before it answers.
use cosi300a.Prelude.{ℕ, arith, After}
use cosi300a.Raft.Types.{
  Raft, Labgob, IsCodec, RequestVoteArgs, RequestVoteReply, AppendEntriesArgs, AppendEntriesReply,
  InstallSnapshotArg, InstallSnapshotReply,
}
use cosi300a.Raft.Node.{start, become_follower, refresh_timestamp, persist, restore}
use cosi300a.Raft.Vote.{request_vote, election_tick, handle_vote_reply}
use cosi300a.Raft.Append.{append_entries, append_in_term, handle_append_reply}
use cosi300a.Raft.Snapshot.{install_snapshot, handle_snapshot_reply, save_snapshot}
use cosi300a.Raft.Run.Defs.{IsDurable, persistent}
use cosi300a.Raft.Run.Effects.{accept_reply-KeepsPersistent, back_off-KeepsPersistent}

module _ {C D B : Type 0} (g : Labgob C D B) (c : IsCodec g) where
  -- Whatever was in the persister, `persist` makes it hold the state.
  pub persist-IsDurable : (rf : Raft C D B) → After (IsDurable g) (persist g rf)
  unfolding persist
  persist-IsDurable rf =
      let (b, e) = c.state_encodes (persistent rf) in
      ground (arith, e, c.state_decodes (persistent rf) b, c.state_nonempty (persistent rf) b)

  pub append_in_term-IsDurable :
      (now : ℕ) (args : AppendEntriesArgs C) (rf : Raft C D B)
      → After (IsDurable g) (append_in_term g now args rf)
  unfolding append_in_term
  append_in_term-IsDurable now args rf = grind (arith, persist-IsDurable)

  module _ (now : ℕ) (rf : Raft C D B) (d : IsDurable g rf) where
    pub request_vote-IsDurable :
        (args : RequestVoteArgs) → After (IsDurable g) (request_vote g now args rf)
    unfolding request_vote
    request_vote-IsDurable args = grind (arith, persist-IsDurable)

    pub append_entries-IsDurable :
        (args : AppendEntriesArgs C) → After (IsDurable g) (append_entries g now args rf)
    unfolding append_entries
    append_entries-IsDurable args = grind (arith, append_in_term-IsDurable)

    pub install_snapshot-IsDurable :
        (arg : InstallSnapshotArg D) → After (IsDurable g) (install_snapshot g now arg rf)
    unfolding install_snapshot
    install_snapshot-IsDurable arg = grind (arith, c.state_decodes, c.state_nonempty)

    pub election_tick-IsDurable :
        (timeout : ℕ) → After (IsDurable g) (election_tick g now timeout rf)
    unfolding election_tick
    election_tick-IsDurable timeout = grind (arith, persist-IsDurable)

    pub handle_vote_reply-IsDurable :
        (reply : RequestVoteReply) → After (IsDurable g) (handle_vote_reply g now reply rf)
    unfolding handle_vote_reply
    handle_vote_reply-IsDurable reply = grind (arith, persist-IsDurable)

    pub handle_append_reply-IsDurable :
        (j : ℕ) (args : AppendEntriesArgs C) (reply : AppendEntriesReply)
        → After (IsDurable g) (handle_append_reply g now j args reply rf)
    unfolding handle_append_reply
    handle_append_reply-IsDurable j args reply = ground (
      arith,
      accept_reply-KeepsPersistent j args (refresh_timestamp now rf),
      back_off-KeepsPersistent j args (refresh_timestamp now rf),
      persist-IsDurable (become_follower now reply.term rf),
    )

    pub handle_snapshot_reply-IsDurable :
        (server : ℕ) (args : InstallSnapshotArg D) (reply : InstallSnapshotReply)
        → After (IsDurable g) (handle_snapshot_reply g now server args reply rf)
    unfolding handle_snapshot_reply
    handle_snapshot_reply-IsDurable server args reply = grind (arith, persist-IsDurable)

    pub start-IsDurable : (x : C) → After (IsDurable g) (start g x rf)
    unfolding start
    start-IsDurable x = grind (arith, persist-IsDurable)

    pub save_snapshot-IsDurable :
        (index term : ℕ) (bytes : D) → After (IsDurable g) (save_snapshot g index term bytes rf)
    unfolding save_snapshot
    save_snapshot-IsDurable index term bytes = grind (arith, c.state_decodes, c.state_nonempty)

  -- `Make` too, whether it finds a state or none.
  pub restore-IsDurable : (rf : Raft C D B) → After (IsDurable g) (restore g rf)
  unfolding restore
  restore-IsDurable rf = grind (arith, persist-IsDurable)
