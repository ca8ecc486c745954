-- ===== src/Raft/Snapshot.antt =====
-- src/raft/raft.go: snapshots. `SaveSnapshot`, `GetKVSnapshotByte`, `InstallSnapshot`, one round of
-- `startInstallSnapshot` and the handling of a reply.
use cosi300a.Prelude.{
  ℕ, ◌+◌, true, false, not, ◌||◌, Option, none, some, [], ◌∷◌, ◌++◌, pos, minus_one, ltb_ℤ, Result,
  ok, panic, or_panic, Go, pure, gets, lift, reads, modify, ◌>>=◌, ◌>>◌, if◌then◌else◌, ltb, nat_eq,
}
use cosi300a.Raft.Types.{
  dummy_node, snapshot, SnapshotRaft, InstallSnapshotArg, InstallSnapshotReply, is_leader, Raft,
  Labgob,
}
use cosi300a.Raft.Persister.{save_state_and_snapshot, read_snapshot, snapshot_size}
use cosi300a.Raft.Log.{get_log_item_slice, log_contain_index, assign}
use cosi300a.Raft.Append.{get_previous_index_for_server}
use cosi300a.Raft.Node.{
  last_log_index, dummy_log_index, become_follower, persist, get_persist_state_byte,
  get_persist_snapshot_byte,
}

module _ {C D B : Type 0} where
  -- `rf.applyCh` is sent the snapshot's bytes.
  unfoldable pub rebuild_log_from_snapshot : ℕ → ℕ → D → Raft C D B → Raft C D B
  rebuild_log_from_snapshot last_index last_term bytes rf = record rf {
    log = record { command = dummy_node; term = last_term; index = last_index } ∷ [];
    commit_index = last_index;
    apply_ch = rf.apply_ch ++ snapshot bytes minus_one minus_one ∷ [];
  }

module _ {C D B : Type 0} (g : Labgob C D B) where
  -- Both halves are encoded before the persister is written.
  unfoldable pub save_both : ℕ → ℕ → D → Go (Raft C D B) Unit
  unfolding get_persist_state_byte get_persist_snapshot_byte
  save_both index term bytes = do
    state ← reads (get_persist_state_byte g)
    saved ← lift (get_persist_snapshot_byte g index term bytes)
    modify (λ rf. record rf { persister = save_state_and_snapshot state saved rf.persister })

  unfoldable pub get_snapshot_raft_object : Raft C D B → Result (SnapshotRaft D)
  get_snapshot_raft_object rf =
      if ltb 0 (snapshot_size g.len rf.persister)
      then or_panic (g.decode_snapshot (read_snapshot rf.persister))
      else panic

  -- The reply that the caller passed in keeps its term, 0, where the snapshot is taken.
  unfoldable pub install_snapshot : ℕ → InstallSnapshotArg D → Go (Raft C D B) InstallSnapshotReply
  unfolding rebuild_log_from_snapshot save_both
  install_snapshot now arg = do
    current ← gets (λ rf. rf.current_term)
    if ltb arg.term current then pure (record { term = current }) else (do
      modify (λ rf. if ltb rf.current_term arg.term then become_follower now arg.term rf else rf)
      modify (rebuild_log_from_snapshot arg.last_included_index arg.last_included_term arg.payload)
      save_both arg.last_included_index arg.last_included_term arg.payload
      pure (record { term = 0 }))

  abbrev snapshot_args : Raft C D B → Result (Option (InstallSnapshotArg D))
  snapshot_args rf = elim (get_snapshot_raft_object rf) [
    | panic ↦ panic
    | ok saved ↦ ok (
        some (record {
          term = rf.current_term;
          leader_id = rf.me;
          last_included_index = saved.last_included_index;
          last_included_term = saved.last_included_term;
          payload = saved.state_machine_state;
        }))
  ]

  -- One round of the loop for `server`, up to the call: the call that it makes, if any.
  unfoldable pub snapshot_tick : Raft C D B → ℕ → Result (Option (InstallSnapshotArg D))
  unfolding get_snapshot_raft_object get_previous_index_for_server
  snapshot_tick rf server =
      if is_leader rf.state
      then elim (get_previous_index_for_server rf server) [
        | panic ↦ panic
        | ok previous ↦ elim (dummy_log_index rf) [
          | panic ↦ panic
          | ok dummy ↦ if ltb_ℤ previous (pos dummy) then snapshot_args rf else ok none
        ]
      ]
      else ok none

  -- The rest of the round, once the call has been answered.
  unfoldable pub handle_snapshot_reply :
      ℕ → ℕ → InstallSnapshotArg D → InstallSnapshotReply → Go (Raft C D B) Unit
  unfolding persist
  handle_snapshot_reply now server args reply = do
    rf ← gets (λ rf. rf)
    if not (is_leader rf.state) || ltb reply.term rf.current_term
        then pure tt
        else if ltb rf.current_term reply.term
        then (do modify (become_follower now reply.term); persist g)
        else (do
          next ← reads (λ rf. assign rf.next_index server (args.last_included_index + 1))
          matched ← reads (λ rf. assign rf.match_index server args.last_included_index)
          modify (λ rf. record rf { next_index = next; match_index = matched }))

  -- The log is cut at the snapshot's index, whose entry becomes the dummy.
  unfoldable pub save_snapshot : ℕ → ℕ → D → Go (Raft C D B) Unit
  unfolding save_both
  save_snapshot last_included_index last_included_term bytes = do
    contained ← reads (λ rf. log_contain_index rf.log last_included_index)
    if contained
        then (do
          last ← reads last_log_index
          kept ← reads (λ rf. get_log_item_slice rf.log last_included_index (last + 1))
          modify (λ rf. record rf { log = kept })
          save_both last_included_index last_included_term bytes)
        else pure tt

  -- `rf.lock(…)` and `rf.unlock(…)`, written out in the one operation that may return between them.
  abbrev lock : Go (Raft C D B) Unit
  lock = modify (λ rf. record rf { locked = true })

  abbrev unlock : Go (Raft C D B) Unit
  unlock = modify (λ rf. record rf { locked = false })

  unfoldable pub get_kv_snapshot_byte : Go (Raft C D B) D
  unfolding get_snapshot_raft_object
  get_kv_snapshot_byte = do
    lock
    size ← gets (λ rf. snapshot_size g.len rf.persister)
    if nat_eq size 0
        then pure g.empty
        else (do unlock; saved ← reads get_snapshot_raft_object; pure saved.state_machine_state)
