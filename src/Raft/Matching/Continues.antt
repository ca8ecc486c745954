-- ===== src/Raft/Matching/Continues.antt =====
-- What the operations of src/raft/raft.go that create no entry do to a peer's log, as far as the
-- matching of logs needs it.
use cosi300a.Prelude.{
  ℕ, ◌+◌, ◌≡◌, ◌≢◌, List, [], ◌∷◌, arith, ok, After, Result-cases, Bool-cases, inl, inr, All-append,
  length, minus_one, panic, ◌⊎◌, false, leb, ◌&&◌,
}
use cosi300a.Raft.Types.{
  snapshot, Raft, Labgob, RequestVoteArgs, leader, LogItem, RequestVoteReply, AppendEntriesArgs,
  AppendEntriesReply, InstallSnapshotArg, InstallSnapshotReply,
}
use cosi300a.Raft.Log.{get_log_item_at_index, log_contain_index}
use cosi300a.Raft.Append.{append_entries, handle_append_reply}
use cosi300a.Raft.Vote.{request_vote, election_tick, handle_vote_reply}
use cosi300a.Raft.Snapshot.{install_snapshot, handle_snapshot_reply, save_snapshot}
use cosi300a.Raft.Node.{make, refresh_timestamp, become_follower}
use cosi300a.Raft.Contiguous.{final}
use cosi300a.Raft.Accessors.{
  log_contain_index_lem, get_last_log_index-IsLog, get_log_item_slice_lem, get_log_item_at_index-ok,
  get_log_item_at_index-found,
}
use cosi300a.Raft.Run.Defs.{IsDurable}
use cosi300a.Raft.Run.Effects.{accept_reply-KeepsPersistent, back_off-KeepsPersistent}
use cosi300a.Raft.Cluster.Quiet.{append_in_term-KeepsRole}
use cosi300a.Raft.Matching.Chain.{
  Created, Chain, IsChained, IsChained-cut, found-IsLog, IsChained-IsLog,
}
use cosi300a.Raft.Matching.Traced.{
  IsSent, IsTraced, append_in_term-IsTraced, accept_reply-IsTraced, back_off-IsTraced,
}

-- The entries stay as they were created, and a peer that leads keeps its last index.
pub record Continues {C D B : Type 0} (created : Created C) (a b : Raft C D B) : Type 0 where
  pub traced : IsTraced created b
  pub last : b.state ≡ leader → final b.log ≡ final a.log

absent :
    {C : Type 0} (created : Created C) (log : List (LogItem C)) (i : ℕ)
    → IsChained created log
    → get_log_item_at_index log i ≡ panic
    → (log_contain_index log i ≡ panic) ⊎ (log_contain_index log i ≡ ok false)
unfolding log_contain_index
absent created [] i h e = ground arith
absent created (x ∷ xs) i h e =
    let shape = IsChained-IsLog created (x ∷ xs) h (omega arith) in
    elim (Bool-cases (leb x.index i && leb i (x.index + length xs))) [
      | inl within ↦
          let (item, f, _, _) =
            get_log_item_at_index-found (x ∷ xs) i shape (ground arith) (ground arith) in
          absurd (ground (arith, e, f))
      | inr out ↦ inr (ground (arith, out, log_contain_index_lem (x ∷ xs) i shape))
    ]

module _ {C D B : Type 0} (g : Labgob C D B) (created : Created C) (now : ℕ) (rf : Raft C D B)
    (h : IsTraced created rf) where
  pub request_vote-Continues :
      (args : RequestVoteArgs) → After (Continues created rf) (request_vote g now args rf)
  unfolding request_vote
  request_vote-Continues args = ground (arith, h)

  pub election_tick-Continues :
      (timeout : ℕ) → After (Continues created rf) (election_tick g now timeout rf)
  unfolding election_tick
  election_tick-Continues timeout = ground (arith, h)

  pub handle_vote_reply-Continues :
      (reply : RequestVoteReply) → After (Continues created rf) (handle_vote_reply g now reply rf)
  unfolding handle_vote_reply
  handle_vote_reply-Continues reply = ground (arith, h)

  pub handle_append_reply-Continues :
      (j : ℕ) (args : AppendEntriesArgs C) (reply : AppendEntriesReply)
      → After (Continues created rf) (handle_append_reply g now j args reply rf)
  unfolding handle_append_reply
  handle_append_reply-Continues j args reply =
      let fresh : IsTraced created (refresh_timestamp now rf) = ground (arith, h) in
      ground (
        arith,
        h,
        accept_reply-IsTraced created j args (refresh_timestamp now rf) fresh,
        back_off-IsTraced created j args (refresh_timestamp now rf) fresh,
        accept_reply-KeepsPersistent j args (refresh_timestamp now rf),
        back_off-KeepsPersistent j args (refresh_timestamp now rf),
      )

  pub handle_snapshot_reply-Continues :
      (server : ℕ) (args : InstallSnapshotArg D) (reply : InstallSnapshotReply)
      → After (Continues created rf) (handle_snapshot_reply g now server args reply rf)
  unfolding handle_snapshot_reply
  handle_snapshot_reply-Continues server args reply = ground (arith, h)

  pub make-Continues :
      (b : Raft C D B)
      → IsDurable g rf
      → make g rf.peers rf.me rf.persister now ≡ ok b
      → Continues created rf b
  unfolding make
  make-Continues b d e = ground (arith, h, d.saved, d.nonempty)

  pub install_snapshot-Continues :
      (arg : InstallSnapshotArg D)
      → (rf.state ≡ leader → arg.term ≢ rf.current_term)
      → After (Continues created rf) (install_snapshot g now arg rf)
  unfolding install_snapshot
  install_snapshot-Continues arg away =
      let sent =
        All-append (IsSent created) rf.apply_ch (snapshot arg.payload minus_one minus_one ∷ [])
          h.sent (tt, tt) in
      ground (arith, h, away, sent)

  pub append_entries-Continues :
      (args : AppendEntriesArgs C)
      → (rf.state ≡ leader → args.term ≢ rf.current_term)
      → Chain created args.prev_log_term (args.prev_log_index + 1) args.entries
      → After (Continues created rf) (append_entries g now args rf)
  unfolding append_entries
  append_entries-Continues args away k =
      let newer : IsTraced created (become_follower now args.term rf) = ground (arith, h) in
      ground (
        arith,
        h,
        away,
        append_in_term-IsTraced created g now args rf h k,
        append_in_term-IsTraced created g now args (become_follower now args.term rf) newer k,
        append_in_term-KeepsRole g now rf args,
        append_in_term-KeepsRole g now (become_follower now args.term rf) args,
      )

  pub save_snapshot-Continues :
      (index term : ℕ) (bytes : D)
      → After (Continues created rf) (save_snapshot g index term bytes rf)
  unfolding save_snapshot
  save_snapshot-Continues index term bytes =
      Result-cases (get_log_item_at_index rf.log index)
        (λ item e.
          let shape = found-IsLog created rf.log index h.log e in
          let here = get_log_item_at_index-ok rf.log index item shape e in
          let (chained, last) = IsChained-cut created rf.log index h.log e in
          ground (
            arith,
            h,
            log_contain_index_lem rf.log index shape,
            get_last_log_index-IsLog rf.log shape,
            get_log_item_slice_lem rf.log index shape here.lo here.hi,
            chained,
            last,
          ))
        (λ e. ground (arith, h, absent created rf.log index h.log e))
