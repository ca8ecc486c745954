-- ===== src/Raft/Compact.antt =====
-- Snapshots of src/raft/raft.go: what saving and installing one leave, and what the leader learns.
use cosi300a.Prelude.{
  ℕ, ◌+◌, ◌-◌, ◌≤◌, ◌<◌, ◌≡◌, ◌⊎◌, refl, true, some, List, [], ◌∷◌, ◌++◌, if◌then◌else◌, arith, ok,
  ltb, length, drop, length-drop, minus_one,
}
use cosi300a.Raft.Types.{
  dummy_node, LogItem, SnapshotRaft, InstallSnapshotArg, InstallSnapshotReply, Raft, Labgob,
  IsCodec, snapshot,
}
use cosi300a.Raft.Persister.{Persister}
use cosi300a.Raft.Node.{become_follower}
use cosi300a.Raft.Snapshot.{
  save_both, save_snapshot, install_snapshot, handle_snapshot_reply, get_snapshot_raft_object,
  rebuild_log_from_snapshot,
}
use cosi300a.Raft.Contiguous.{IsLog, first, final, Contiguous, IsLog-drop, Contiguous-subst}
use cosi300a.Raft.Accessors.{
  get_last_log_index-IsLog, get_log_item_slice_lem, log_contain_index_lem,
}
use cosi300a.Raft.Run.Defs.{persistent}

module _ {C : Type 0} where
  nonempty :
      (i : ℕ) (xs : List (LogItem C))
      → Contiguous i xs
      → 0 < length xs
      → IsLog xs × (first xs ≡ i) × (final xs + 1 ≡ i + length xs)
  nonempty i [] h lt = absurd (omega arith)
  nonempty i (x ∷ xs) h lt = (Contiguous-subst xs (omega arith) h.1, h.0, omega arith)

  -- A log cut at an index that it contains is a log that starts there and ends where it did.
  pub IsLog-cut :
      (log : List (LogItem C)) (i : ℕ) → IsLog log → first log ≤ i → i ≤ final log → record {
        shape : IsLog (drop (i - first log) log);
        starts : first (drop (i - first log) log) ≡ i;
        ends : final (drop (i - first log) log) ≡ final log;
      }
  IsLog-cut [] i h lo hi = absurd h
  IsLog-cut (x ∷ xs) i h lo hi =
      let rest = drop (i - x.index) (x ∷ xs) in
      let n : i + length rest ≡ x.index + length xs + 1 =
        omega (arith, length-drop (i - x.index) (x ∷ xs)) in
      let (shape, starts, ends) = nonempty i rest (IsLog-drop (x ∷ xs) i h lo) (omega (arith, n)) in
      record { shape = shape; starts = starts; ends = omega (arith, ends, n) }

module _ {C D B : Type 0} (g : Labgob C D B) where
  save_both_lem :
      (index term : ℕ) (bytes : D) (rf : Raft C D B)
      → IsCodec g
      → (ps : Persister B) × (save_both g index term bytes rf
          ≡ ok (tt, record rf { persister = ps }))
        × (g.decode_state ps.raftstate ≡ some (persistent rf))
        × (g.decode_snapshot ps.snapshot
            ≡ some (record {
              state_machine_state = bytes;
              last_included_index = index;
              last_included_term = term;
            }))
        × (ltb 0 (g.len ps.snapshot) ≡ true)
  unfolding save_both
  save_both_lem index term bytes rf c =
      let object : SnapshotRaft D = record {
        state_machine_state = bytes;
        last_included_index = index;
        last_included_term = term;
      } in
      let (a, ea) = c.state_encodes (persistent rf) in
      let (b, eb) = c.snapshot_encodes object in
      (
        record { raftstate = a; snapshot = b },
        ground (arith, ea, eb),
        c.state_decodes (persistent rf) a ea,
        c.snapshot_decodes object b eb,
        c.snapshot_nonempty object b eb,
      )

  -- Saving a snapshot at an index of the log keeps the entries from there on: the log starts at the
  -- snapshot's index and ends where it did. The persister then holds the new state and the
  -- snapshot, which can be read back. labgob is one that decodes what it encodes.
  pub save_snapshot_lem :
      (index term : ℕ) (bytes : D) (rf : Raft C D B)
      → IsCodec g
      → IsLog rf.log
      → first rf.log ≤ index
      → index ≤ final rf.log
      → (rf' : Raft C D B) × (save_snapshot g index term bytes rf ≡ ok (tt, rf'))
        × (rf'.log ≡ drop (index - first rf.log) rf.log)
        × IsLog rf'.log
        × (first rf'.log ≡ index)
        × (final rf'.log ≡ final rf.log)
        × (g.decode_state rf'.persister.raftstate ≡ some (persistent rf'))
        × (get_snapshot_raft_object g rf'
            ≡ ok (record {
              state_machine_state = bytes;
              last_included_index = index;
              last_included_term = term;
            }))
  unfolding save_snapshot get_snapshot_raft_object
  save_snapshot_lem index term bytes rf c h lo hi =
      let cut = record rf { log = drop (index - first rf.log) rf.log } in
      let (ps, saved, state, object, full) = save_both_lem index term bytes cut c in
      let r = IsLog-cut rf.log index h lo hi in
      (
        record cut { persister = ps },
        ground (
          arith,
          saved,
          log_contain_index_lem rf.log index h,
          get_last_log_index-IsLog rf.log h,
          get_log_item_slice_lem rf.log index h,
        ),
        refl,
        r.shape,
        r.starts,
        r.ends,
        state,
        ground (arith, object, full),
      )

  -- A snapshot outside the log is not saved.
  pub save_snapshot-outside :
      (index term : ℕ) (bytes : D) (rf : Raft C D B)
      → IsLog rf.log
      → (index < first rf.log) ⊎ (final rf.log < index)
      → save_snapshot g index term bytes rf ≡ ok (tt, rf)
  unfolding save_snapshot
  save_snapshot-outside index term bytes rf h o =
      ground (arith, log_contain_index_lem rf.log index h)

  -- A snapshot of the current or a later term replaces the log by its index and term alone, moves
  -- the commit position there, is sent to the service, and can be read back; the reply's term is 0.
  -- labgob is one that decodes what it encodes.
  pub install_snapshot_lem :
      (now : ℕ) (arg : InstallSnapshotArg D) (rf : Raft C D B)
      → IsCodec g
      → rf.current_term ≤ arg.term
      → (rf' : Raft C D B) × (install_snapshot g now arg rf ≡ ok (record { term = 0 }, rf'))
        × (rf'.current_term ≡ arg.term)
        × (rf'.log
            ≡ record {
              command = dummy_node;
              term = arg.last_included_term;
              index = arg.last_included_index;
            }
              ∷ [])
        × (rf'.commit_index ≡ arg.last_included_index)
        × (rf'.apply_ch ≡ rf.apply_ch ++ snapshot arg.payload minus_one minus_one ∷ [])
        × (get_snapshot_raft_object g rf'
            ≡ ok (record {
              state_machine_state = arg.payload;
              last_included_index = arg.last_included_index;
              last_included_term = arg.last_included_term;
            }))
  unfolding install_snapshot get_snapshot_raft_object
  install_snapshot_lem now arg rf c le =
      let base = if ltb rf.current_term arg.term then become_follower now arg.term rf else rf in
      let rebuilt =
        rebuild_log_from_snapshot arg.last_included_index arg.last_included_term arg.payload base in
      let (ps, saved, state, object, full) =
        save_both_lem arg.last_included_index arg.last_included_term arg.payload rebuilt c in
      (
        record rebuilt { persister = ps },
        ground (arith, saved),
        ground arith,
        ground arith,
        ground arith,
        ground arith,
        ground (arith, object, full),
      )

  -- A leader with a positive term passes over the reply of a peer that took its snapshot, and
  -- changes nothing: neither the next index nor the match of the peer moves.
  pub install_unheard :
      (now later server : ℕ) (arg : InstallSnapshotArg D) (f f' l : Raft C D B)
      (reply : InstallSnapshotReply)
      → install_snapshot g now arg f ≡ ok (reply, f')
      → f.current_term ≤ arg.term
      → 0 < l.current_term
      → handle_snapshot_reply g later server arg reply l ≡ ok (tt, l)
  unfolding install_snapshot handle_snapshot_reply
  install_unheard now later server arg f f' l reply h le pos = ground arith
