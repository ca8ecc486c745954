-- ===== src/Shardmaster/Server.antt =====
-- src/shardmaster/server.go: the server around the handlers. What runs under its lock is one action.
use cosi300a.Prelude.{
  ℕ, Bool, true, false, not, ◌&&◌, Option, none, some, List, [], ◌∷◌, String, ℤ, pos, minus_one,
  ltb_ℤ, leb_ℤ, Result, ok, panic, or_panic, Go, pure, gets, lift, reads, modify, ◌>>=◌, ◌>>◌,
  if◌then◌else◌, ltb, leb, nat_eq, lookup, insert, replicate, string_key,
}
use cosi300a.Raft.Types.{ApplyMsg, Interface, dummy_node, Raft, Labgob}
use cosi300a.Raft.Node
use cosi300a.Raft.Persister.{Persister, snapshot_size}
use cosi300a.Raft.Snapshot.{save_snapshot, get_kv_snapshot_byte}
use cosi300a.Shardmaster.Shards.{
  get_last_config_number, get_config_at_n, Assignment, handle_join, handle_leave, handle_move,
}
use cosi300a.Shardmaster.Types.{
  n_shards, Config, CommandId, CommandType, move_command, join_command, leave_command,
  query_command, Args, join_args, leave_args, move_args, Command, Snapshot, ShardMaster,
  SnapshotGob,
}

-- Snapshots are off.
abbrev pub max_log_size : ℤ
max_log_size = minus_one

-- `sm.getConfigAtN(sm.getLastConfigNumber())`, an argument of a debug print: it is read even where
-- nothing is printed.
unfoldable pub latest_config : List Config → Result Config
unfolding get_last_config_number get_config_at_n
latest_config configs = elim (get_last_config_number configs) [
  | panic ↦ panic
  | ok last ↦ get_config_at_n configs last
]

-- The command of a log entry is asserted to be one of the service.
abbrev as_command : Interface Command → Result Command
as_command (Interface.command c) = ok c
as_command dummy_node = panic

-- The handler of a command's type, with the type assertion on its arguments.
unfoldable pub run_command : CommandType → Args → Assignment → Result Assignment
unfolding handle_join handle_leave handle_move
run_command join_command (join_args args) a = handle_join args.servers a
run_command leave_command (leave_args args) a = handle_leave args.gids a
run_command query_command args a = ok a
run_command move_command (move_args args) a = handle_move args.shard args.gid a
run_command _ args a = panic

-- The thread that saves a snapshot: it calls `SaveSnapshot`, which takes the peer's mutex, and releases
-- the snapshot lock after that.
pub data Saver (D : Type 0) : Type 0 where
  saves : ℕ × ℕ × D → Saver D
  releases : Saver D

module _ {D B : Type 0} where
  unfoldable pub get_last_commit_command_count : ShardMaster D B → String → ℤ
  get_last_commit_command_count sm clerk_id =
      elim (lookup clerk_id sm.last_committed_command_count) [
        | none ↦ minus_one
        | some command_count ↦ pos command_count
      ]

  unfoldable pub is_command_committed : ShardMaster D B → CommandId → Bool
  is_command_committed sm id = elim (lookup id.clerk_id sm.last_committed_command_count) [
    | none ↦ false
    | some last ↦ leb id.command last
  ]

  -- A number that does not grow panics.
  unfoldable pub update_committed_command_map : String → ℕ → Go (ShardMaster D B) Unit
  update_committed_command_map clerk_id n sm =
      let updated = record sm {
        last_committed_command_count = insert clerk_id n sm.last_committed_command_count;
      } in
      elim (lookup clerk_id sm.last_committed_command_count) [
        | none ↦ ok (tt, updated)
        | some v ↦ if leb n v then panic else ok (tt, updated)
      ]

  abbrev pub assignment : ShardMaster D B → Assignment
  assignment sm = record { configs = sm.configs; group_map = sm.group_map; shards = sm.shards }

  abbrev pub with_assignment : ShardMaster D B → Assignment → ShardMaster D B
  with_assignment sm a = record sm {
    configs = a.configs;
    group_map = a.group_map;
    shards = a.shards;
  }

  -- A command that is new: it runs, and is recorded as its clerk's last.
  unfoldable pub apply_command : Command → Go (ShardMaster D B) Unit
  unfolding run_command update_committed_command_map
  apply_command c = do
    a ← reads (λ sm. run_command c.type c.args (assignment sm))
    modify (λ sm. with_assignment sm a)
    update_committed_command_map c.id.clerk_id c.id.command

  unfoldable pub kill : ShardMaster D B → ShardMaster D B
  kill sm = record sm { dead = true; rf = Node.kill sm.rf }

  unfoldable pub is_leader : ShardMaster D B → Bool
  is_leader sm = (Node.get_state sm.rf).1

  -- `atomic.CompareAndSwapInt32(&sm.snapshotLock, 0, 1)`: whether it swaps.
  abbrev pub require_snapshot_lock : ShardMaster D B → Bool
  require_snapshot_lock sm = not sm.snapshot_lock

  abbrev pub release_snapshot_lock : ShardMaster D B → ShardMaster D B
  release_snapshot_lock sm = record sm { snapshot_lock = false }

module _ {D B : Type 0} (g : Labgob Command D B) (h : SnapshotGob D) where
  unfoldable pub encode_state : ShardMaster D B → Result D
  encode_state sm = or_panic (
      h.encode (record {
        configs = sm.configs;
        group_map = sm.group_map;
        shards = sm.shards;
        last_committed_command_count = sm.last_committed_command_count;
      }))

  unfoldable pub decode_state : D → Result Snapshot
  decode_state d =
      if nat_eq (h.len d) 0
      then ok (record {
        configs = [];
        group_map = [];
        shards = replicate n_shards 0;
        last_committed_command_count = [];
      })
      else or_panic (h.decode d)

  unfoldable pub restore_snapshot : Snapshot → ShardMaster D B → ShardMaster D B
  restore_snapshot saved sm = record sm {
    configs = saved.configs;
    group_map = saved.group_map;
    shards = saved.shards;
    last_committed_command_count = saved.last_committed_command_count;
  }

  unfoldable pub should_make_snapshot : ShardMaster D B → Bool
  should_make_snapshot sm =
      ltb_ℤ (pos 0) max_log_size && leb_ℤ max_log_size (pos (Node.get_log_length g sm.rf))

  -- A call of `SaveSnapshot` that has been handed to a thread of its own.
  abbrev pub Saving : Type 0
  Saving = ℕ × ℕ × D

  unfoldable pub take_snapshot : ℕ → ℕ → Go (ShardMaster D B) (Option Saving)
  unfolding encode_state should_make_snapshot
  take_snapshot index term = do
    sm ← gets (λ sm. sm)
    if should_make_snapshot sm && require_snapshot_lock sm
        then (do
          modify (λ sm. record sm { snapshot_lock = true })
          state ← reads encode_state
          pure (some (index, term, state)))
        else pure none

  -- One round of the loop of `checkApplyCommand`, for the message that it receives.
  unfoldable pub check_apply_command : ApplyMsg Command D → Go (ShardMaster D B) (Option Saving)
  unfolding is_command_committed apply_command take_snapshot decode_state restore_snapshot
      latest_config
  check_apply_command (ApplyMsg.snapshot d index term) = do
    saved ← lift (decode_state d)
    modify (restore_snapshot saved)
    pure none
  check_apply_command (ApplyMsg.entry i index term) = do
    c ← lift (as_command i)
    sm ← gets (λ sm. sm)
    if is_command_committed sm c.id then pure none else (do
      apply_command c
      saving ← take_snapshot index term
      printed ← reads (λ sm. latest_config sm.configs)
      pure saving)

  -- One step of a thread that was handed a snapshot, and what it does next.
  unfoldable pub run_saver : Saver D → ShardMaster D B → Result (Option (Saver D) × ShardMaster D B)
  unfolding save_snapshot
  run_saver (saves (index, term, state)) sm = elim (save_snapshot g index term state sm.rf) [
    | panic ↦ panic
    | ok (_, rf) ↦ ok (some releases, record sm { rf = rf })
  ]
  run_saver releases sm = ok (none, release_snapshot_lock sm)

  abbrev new_server : ℕ → Raft Command D B → ShardMaster D B
  new_server me rf = record {
    me = me;
    rf = rf;
    configs = record { num = 0; shards = replicate n_shards 0; groups = [] } ∷ [];
    dead = false;
    group_map = [];
    shards = replicate n_shards 0;
    last_committed_command_count = [];
    snapshot_lock = false;
  }

  -- The snapshot that the persister holds is read back if snapshots are on.
  unfoldable pub restore_saved : Persister B → ShardMaster D B → Result (ShardMaster D B)
  unfolding decode_state get_kv_snapshot_byte restore_snapshot
  restore_saved persister sm =
      if ltb_ℤ (pos 0) max_log_size && ltb 0 (snapshot_size g.len persister)
      then elim (get_kv_snapshot_byte g sm.rf) [
        | panic ↦ panic
        | ok (d, rf) ↦ elim (decode_state d) [
          | panic ↦ panic
          | ok saved ↦ ok (restore_snapshot saved (record sm { rf = rf }))
        ]
      ]
      else ok sm

  unfoldable pub start_server : ℕ → ℕ → Persister B → ℕ → Result (ShardMaster D B)
  unfolding Node.make restore_saved
  start_server servers me persister now = elim (Node.make g servers me persister now) [
    | panic ↦ panic
    | ok rf ↦ restore_saved persister (new_server me rf)
  ]

  -- The loop of `checkApplyCommand` over the messages that it receives. The snapshots that it hands
  -- out are saved by other threads, which do not touch the assignment.
  unfoldable pub apply_all : List (ApplyMsg Command D) → ShardMaster D B → Result (ShardMaster D B)
  unfolding check_apply_command
  apply_all [] sm = ok sm
  apply_all (message ∷ messages) sm = elim (check_apply_command message sm) [
    | panic ↦ panic
    | ok (_, sm') ↦ apply_all messages sm'
  ]
