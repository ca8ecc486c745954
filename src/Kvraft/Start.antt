-- ===== src/Kvraft/Start.antt =====
-- `StartKVServer` of src/kvraft/server.go and the mutex of its peer.
use cosi300a.Prelude.{ℕ, ◌≡◌, false, ℤ, ok, arith, Result-cases}
use cosi300a.Raft.Types.{Raft, Labgob}
use cosi300a.Raft.Persister.{Persister}
use cosi300a.Raft.Node.{make}
use cosi300a.Raft.Snapshot.{get_kv_snapshot_byte}
use cosi300a.Kvraft.Types.{Command, KvServer, SnapshotGob}
use cosi300a.Kvraft.Server.{start_kv_server, restore_saved, decode_state, new_server}

module _ {C D B : Type 0} (g : Labgob C D B) where
  make_keeps :
      (servers me now : ℕ) (persister : Persister B) (rf : Raft C D B)
      → make g servers me persister now ≡ ok rf
      → (rf.locked ≡ false) × (rf.persister.snapshot ≡ persister.snapshot)
  unfolding make
  make_keeps servers me now persister rf e = ground (arith, e)

module _ {D B : Type 0} (g : Labgob Command D B) (h : SnapshotGob D) where
  restore_saved-rf :
      (persister : Persister B) (a b : KvServer D B)
      → restore_saved g h persister a ≡ ok b
      → a.rf.locked ≡ false
      → a.rf.persister.snapshot ≡ persister.snapshot
      → b.rf ≡ a.rf
  unfolding restore_saved get_kv_snapshot_byte decode_state
  restore_saved-rf persister a b e free same = ground (arith, e, free, same)

  -- A server that `StartKVServer` starts from any persister, without a panic, has the peer exactly
  -- as `Make` made it, with its mutex free, also where `GetKVSnapshotByte` has read the stored
  -- snapshot.
  pub start_kv_server-unlocked :
      (servers me now : ℕ) (persister : Persister B) (maxraftstate : ℤ) (kv : KvServer D B)
      → start_kv_server g h servers me persister maxraftstate now ≡ ok kv
      → (make g servers me persister now ≡ ok kv.rf) × (kv.rf.locked ≡ false)
  unfolding start_kv_server
  start_kv_server-unlocked servers me now persister maxraftstate kv e =
      Result-cases (make g servers me persister now)
        (λ rf made.
          let (free, same) = make_keeps g servers me now persister rf made in
          let started = new_server g h me maxraftstate rf in
          let kept = restore_saved-rf persister started kv (ground (arith, e, made)) free same in
          (ground (arith, made, kept), ground (arith, kept, free)))
        (λ failed. ground (arith, e, failed))
