-- ===== src/Kvraft/Restart.antt =====
-- src/kvraft/server.go: a server that crashes after a snapshot was saved.
use cosi300a.Prelude.{ℕ, ◌≡◌, ◌≤◌, refl, true, false, List, arith, ok, Option, ltb_ℤ, pos, ltb}
use cosi300a.Raft.Types.{ApplyMsg, Labgob, IsCodec, Raft, SnapshotRaft}
use cosi300a.Raft.Node.{make, fresh}
use cosi300a.Raft.Snapshot.{get_snapshot_raft_object, get_kv_snapshot_byte}
use cosi300a.Raft.Contiguous.{IsLog, first, final}
use cosi300a.Raft.Accessors.{get_dummy_log_index-IsLog}
use cosi300a.Raft.Compact.{save_snapshot_lem}
use cosi300a.Raft.Run.Defs.{IsDurable}
use cosi300a.Raft.Run.Durable.{save_snapshot-IsDurable}
use cosi300a.Kvraft.Types.{Command, KvServer, SnapshotGob, IsFaithful}
use cosi300a.Kvraft.Server.{
  Saver, saves, encode_state, run_saver, start_kv_server, apply_all, restored, new_server,
}
use cosi300a.Kvraft.CatchUp.{Agrees, decode-encode, log-Agrees}

module _ {C D B : Type 0} (g : Labgob C D B) where
  -- `Make` on what a peer has saved brings back its log.
  abbrev pub remade : ℕ → ℕ → ℕ → ℕ → Raft C D B → Raft C D B
  remade servers me now dummy rf = record (fresh g servers me rf.persister now) {
    current_term = rf.current_term;
    vote_for = rf.vote_for;
    log = rf.log;
    commit_index = dummy;
    last_applied = dummy;
  }

  make_saved :
      (servers me now : ℕ) (rf : Raft C D B)
      → IsDurable g rf
      → IsLog rf.log
      → make g servers me rf.persister now ≡ ok (remade servers me now (first rf.log) rf)
  unfolding make
  make_saved servers me now rf d h =
      ground (arith, d.saved, d.nonempty, get_dummy_log_index-IsLog rf.log h)

  -- The snapshot's bytes are read back.
  byte_saved :
      (rf r : Raft C D B) (object : SnapshotRaft D)
      → get_snapshot_raft_object g rf ≡ ok object
      → r.persister ≡ rf.persister
      → r.locked ≡ false
      → (get_kv_snapshot_byte g r ≡ ok (object.state_machine_state, r))
        × (ltb 0 (g.len rf.persister.snapshot) ≡ true)
  unfolding get_kv_snapshot_byte get_snapshot_raft_object
  byte_saved rf r object e same free = ground (arith, e, same, free)

module _ {D B : Type 0} (g : Labgob Command D B) (c : IsCodec g) (h : SnapshotGob D)
    (w : IsFaithful h) where
  -- A server whose state was encoded at an index of its log, and whose thread then saved it,
  -- crashes before that thread releases its lock: `StartKVServer` on its persister brings back the
  -- map and the command numbers of the encoded state, with the log from the snapshot's index on and
  -- that index as commit position; and the messages that the first server took after it encoded its
  -- state lead to the same map and command numbers again. Snapshots are on, the peer's persister
  -- held its state, and both encodings decode to what was encoded.
  pub restarts :
      (a a' kv kv' : KvServer D B) (index term servers now : ℕ) (d : D) (next : Option (Saver D))
      (ms : List (ApplyMsg Command D))
      → encode_state g h a ≡ ok d
      → apply_all g h ms a ≡ ok a'
      → IsDurable g kv.rf
      → IsLog kv.rf.log
      → first kv.rf.log ≤ index
      → index ≤ final kv.rf.log
      → ltb_ℤ (pos 0) kv.maxraftstate ≡ true
      → run_saver g h (saves (index, term, d)) kv ≡ ok (next, kv')
      → (r r' : KvServer D B) × (start_kv_server g h servers kv.me kv'.rf.persister kv.maxraftstate
            now
          ≡ ok r)
        × Agrees a r
        × (r.rf.log ≡ kv'.rf.log)
        × (r.rf.commit_index ≡ index)
        × (apply_all g h ms r ≡ ok r')
        × Agrees a' r'
  unfolding start_kv_server run_saver
  restarts a a' kv kv' index term servers now d next ms enc run dur shape lo hi on fin =
      let (rf, saved, _, log, starts, _, _, object) =
        save_snapshot_lem g index term d kv.rf c shape lo hi in
      let dur' : IsDurable g rf =
        ground (arith, saved, save_snapshot-IsDurable g c 0 kv.rf dur index term d) in
      let made = make_saved g servers kv.me now rf dur' log in
      let peer = remade g servers kv.me now (first rf.log) rf in
      let (byte, full) =
        byte_saved g rf peer
          (record {
            state_machine_state = d;
            last_included_index = index;
            last_included_term = term;
          })
          object refl refl in
      let decoded = decode-encode g h w a d enc in
      let r : KvServer D B =
        restored g h
          (record {
            kv_map = a.kv_map;
            last_committed_command_count = a.last_committed_command_count;
          })
          (new_server g h kv.me kv.maxraftstate peer) in
      let same : kv'.rf ≡ rf = ground (arith, saved, fin) in
      let (r', ran, agrees) = log-Agrees g h w ms a a' r (ground arith) run in
      (
        r,
        r',
        ground (arith, made, byte, full, decoded, on, same),
        ground arith,
        ground (arith, same),
        starts,
        ran,
        agrees,
      )
