-- ===== src/Kvraft/Server.antt =====
-- src/kvraft/server.go: the state, the loop that applies commands, and snapshots. What runs under the
-- server's lock is one action.
use cosi300a.Prelude.{
  string_key, ℕ, Bool, true, false, not, ◌&&◌, Option, none, some, List, [], ◌∷◌, String, concat, ℤ,
  pos, minus_one, ltb_ℤ, leb_ℤ, Result, ok, panic, or_panic, Go, pure, gets, lift, reads, modify,
  ◌>>=◌, ◌>>◌, if◌then◌else◌, ltb, nat_eq, lookup, insert,
}
use cosi300a.Raft.Types.{ApplyMsg, Interface, dummy_node, Raft, Labgob}
use cosi300a.Raft.Node
use cosi300a.Raft.Node.{make}
use cosi300a.Raft.Persister.{Persister, snapshot_size}
use cosi300a.Raft.Snapshot.{save_snapshot, get_kv_snapshot_byte}
use cosi300a.Kvraft.Types.{
  CommandType, get_command, put_command, append_command, unknown_command, CommandId, Command,
  Snapshot, KvServer, SnapshotGob,
}

-- `if value, ok := kvMap[key]; !ok { v } else { value + v }`
abbrev pub appended : Option String → String → String
appended none value = value
appended (some old) value = concat old value

-- What a command of each type does to the map.
unfoldable pub run_command :
    CommandType → Command → List (String × String) → Result (List (String × String))
run_command get_command c m = ok m
run_command put_command c m = ok (insert c.key c.value m)
run_command append_command c m = ok (insert c.key (appended (lookup c.key m) c.value) m)
run_command unknown_command c m = panic

-- The command of a log entry is asserted to be one of the service.
abbrev pub as_command : Interface Command → Result Command
as_command (Interface.command c) = ok c
as_command dummy_node = panic

-- The thread that saves a snapshot: it calls `SaveSnapshot`, which takes the peer's mutex, and releases
-- the snapshot lock after that.
pub data Saver (D : Type 0) : Type 0 where
  saves : ℕ × ℕ × D → Saver D
  releases : Saver D

module _ {D B : Type 0} where
  unfoldable pub get_last_commit_command_count : KvServer D B → String → ℤ
  get_last_commit_command_count kv clerk_id =
      elim (lookup clerk_id kv.last_committed_command_count) [
        | none ↦ minus_one
        | some command_count ↦ pos command_count
      ]

module _ {D B : Type 0} where
  -- `lastCommitCommand >= args.Id.Command`
  unfoldable pub committed : KvServer D B → CommandId → Bool
  unfolding get_last_commit_command_count
  committed kv id = leb_ℤ (pos id.command) (get_last_commit_command_count kv id.clerk_id)

  unfoldable pub kill : KvServer D B → KvServer D B
  kill kv = record kv { dead = true; rf = Node.kill kv.rf }

  unfoldable pub is_leader : KvServer D B → Bool
  is_leader kv = (Node.get_state kv.rf).1

  -- `atomic.CompareAndSwapInt32(&kv.snapshotLock, 0, 1)`
  abbrev pub can_snapshot : KvServer D B → Bool
  can_snapshot kv = not kv.snapshot_lock

  abbrev pub release_snapshot_lock : KvServer D B → KvServer D B
  release_snapshot_lock kv = record kv { snapshot_lock = false }

module _ {D B : Type 0} (g : Labgob Command D B) (h : SnapshotGob D) where
  unfoldable pub encode_state : KvServer D B → Result D
  encode_state kv = or_panic (
      h.encode (record {
        kv_map = kv.kv_map;
        last_committed_command_count = kv.last_committed_command_count;
      }))

  unfoldable pub decode_state : D → Result Snapshot
  decode_state d =
      if nat_eq (h.len d) 0
      then ok (record { kv_map = []; last_committed_command_count = [] })
      else or_panic (h.decode d)

  abbrev pub restored : Snapshot → KvServer D B → KvServer D B
  restored saved kv = record kv {
    kv_map = saved.kv_map;
    last_committed_command_count = saved.last_committed_command_count;
  }

  -- `kv.maxraftstate > 0 && kv.rf.GetLogLength() >= kv.maxraftstate`
  abbrev pub log_is_large : KvServer D B → Bool
  log_is_large kv =
      ltb_ℤ (pos 0) kv.maxraftstate && leb_ℤ kv.maxraftstate (pos (Node.get_log_length g kv.rf))

  -- A call of `SaveSnapshot` that has been handed to a thread of its own.
  abbrev pub Saving : Type 0
  Saving = ℕ × ℕ × D

  -- The state that a snapshot is to save, if one is due: it takes the snapshot lock.
  unfoldable pub take_snapshot : ℕ → ℕ → Go (KvServer D B) (Option Saving)
  unfolding encode_state
  take_snapshot index term = do
    kv ← gets (λ kv. kv)
    if log_is_large kv && can_snapshot kv
        then (do
          modify (λ kv. record kv { snapshot_lock = true })
          state ← reads encode_state
          pure (some (index, term, state)))
        else pure none

  -- A command that is new: it runs, and is recorded as its clerk's last.
  unfoldable pub apply_command : Command → Go (KvServer D B) Unit
  unfolding run_command
  apply_command c = do
    kv_map ← reads (λ kv. run_command c.type c kv.kv_map)
    modify (λ kv. record kv {
      kv_map = kv_map;
      last_committed_command_count =
          insert c.id.clerk_id c.id.command kv.last_committed_command_count;
    })

  -- One round of the loop of `checkApplyCommand`, for the message that it receives.
  unfoldable pub check_apply_command : ApplyMsg Command D → Go (KvServer D B) (Option Saving)
  unfolding committed apply_command take_snapshot decode_state
  check_apply_command (ApplyMsg.snapshot d index term) = do
    saved ← lift (decode_state d)
    modify (restored saved)
    pure none
  check_apply_command (ApplyMsg.entry i index term) = do
    c ← lift (as_command i)
    kv ← gets (λ kv. kv)
    if committed kv c.id then pure none else (do apply_command c; take_snapshot index term)

  -- One step of a thread that was handed a snapshot, and what it does next.
  unfoldable pub run_saver : Saver D → KvServer D B → Result (Option (Saver D) × KvServer D B)
  unfolding save_snapshot
  run_saver (saves (index, term, state)) kv = elim (save_snapshot g index term state kv.rf) [
    | panic ↦ panic
    | ok (_, rf) ↦ ok (some releases, record kv { rf = rf })
  ]
  run_saver releases kv = ok (none, release_snapshot_lock kv)

  abbrev pub new_server : ℕ → ℤ → Raft Command D B → KvServer D B
  new_server me maxraftstate rf = record {
    me = me;
    rf = rf;
    dead = false;
    kv_map = [];
    last_committed_command_count = [];
    maxraftstate = maxraftstate;
    snapshot_lock = false;
  }

  -- The snapshot that the persister holds is read back if snapshots are on.
  unfoldable pub restore_saved : Persister B → KvServer D B → Result (KvServer D B)
  unfolding decode_state get_kv_snapshot_byte
  restore_saved persister kv =
      if ltb_ℤ (pos 0) kv.maxraftstate && ltb 0 (snapshot_size g.len persister)
      then elim (get_kv_snapshot_byte g kv.rf) [
        | panic ↦ panic
        | ok (d, rf) ↦ elim (decode_state d) [
          | panic ↦ panic
          | ok saved ↦ ok (restored saved (record kv { rf = rf }))
        ]
      ]
      else ok kv

  unfoldable pub start_kv_server : ℕ → ℕ → Persister B → ℤ → ℕ → Result (KvServer D B)
  unfolding make restore_saved
  start_kv_server servers me persister maxraftstate now = elim (make g servers me persister now) [
    | panic ↦ panic
    | ok rf ↦ restore_saved persister (new_server me maxraftstate rf)
  ]

  -- The loop of `checkApplyCommand` over the messages that it receives. The snapshots that it hands
  -- out are saved by other threads, which do not touch the map.
  unfoldable pub apply_all : List (ApplyMsg Command D) → KvServer D B → Result (KvServer D B)
  apply_all [] kv = ok kv
  apply_all (message ∷ messages) kv = elim (check_apply_command message kv) [
    | panic ↦ panic
    | ok (_, kv') ↦ apply_all messages kv'
  ]
