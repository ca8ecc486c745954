-- ===== src/Tests/Serving.antt =====
-- A server of src/shardmaster/server.go that takes a join and a leave from its log.
use cosi300a.Prelude.{
  map, Among, ◌≢◌, ℕ, ◌≡◌, ◌+◌, ◌-◌, ◌*◌, ◌/◌, ◌≤◌, ◌<◌, refl, Bool, true, false, Option, none,
  some, ok, List, [], ◌∷◌, String, ℤ, minus_one, pos, arith, length, get_elem?, sort_ints, lookup,
  replicate, Distinct, nat_key,
}
use cosi300a.Raft.Types.{ApplyMsg, Interface, Labgob, Raft, dummy_node, follower}
use cosi300a.Shardmaster.Types.{
  leave_command, leave_args, Command, join_command, copy_group_map, ShardMaster, Snapshot,
  SnapshotGob,
}
use cosi300a.Shardmaster.Shards.{Assignment}
use cosi300a.Shardmaster.Server.{
  start_server, apply_all, check_apply_command, is_command_committed, assignment,
}
use cosi300a.Shardmaster.History.{IsCurrent}
use cosi300a.Shardmaster.Serve.{Extends, to_message, serves-IsCurrent}
use cosi300a.Raft.Persister.{make_persister}
use cosi300a.Tests.Codec.{Encoded, codec}
use cosi300a.Tests.Master.{start, joined, join, left}

data Blob : Type 0 where
  nothing : Blob
  blob : Snapshot → Blob

abbrev decoded : Blob → Option Snapshot
decoded Blob.nothing = none
decoded (Blob.blob s) = some s

abbrev blob_size : Blob → ℕ
blob_size Blob.nothing = 0
blob_size (Blob.blob s) = 1

abbrev snapshots : SnapshotGob Blob
snapshots = record { encode = λ s. some (Blob.blob s); decode = decoded; len = blob_size }

abbrev Bytes : Type 0
Bytes = Encoded Command Blob

abbrev gob : Labgob Command Blob Bytes
gob = codec Blob.nothing

abbrev Master : Type 0
Master = ShardMaster Blob Bytes

abbrev node : Raft Command Blob Bytes
node = record {
  locked = false;
  peers = 3;
  persister = record { raftstate = Encoded.nil; snapshot = Encoded.nil };
  apply_ch = [];
  me = 0;
  dead = false;
  state = follower;
  current_term = 1;
  vote_for = minus_one;
  log = record { command = dummy_node; term = 0; index = 0 } ∷ [];
  commit_index = 0;
  last_applied = 0;
  next_index = [];
  match_index = [];
  election_time_stamp = 0;
  vote_count = 0;
}

abbrev master : Assignment → List (String × ℕ) → Master
master a counts = record {
  me = 0;
  rf = node;
  configs = a.configs;
  dead = false;
  group_map = a.group_map;
  shards = a.shards;
  last_committed_command_count = counts;
  snapshot_lock = false;
}

abbrev join_all : Command
join_all = record {
  id = record { clerk_id = "ann"; command = 0 };
  type = join_command;
  args = join;
}

abbrev after_join : Master
after_join = master joined (("ann", 0) ∷ [])

takes :
    check_apply_command gob snapshots
      (ApplyMsg.entry (Interface.command join_all) 1 1)
      (master start [])
    ≡ ok (none, after_join)
unfolding check_apply_command lookup cosi300a.Prelude.insert sort_ints copy_group_map
takes = refl

fresh : is_command_committed (master start []) join_all.id ≡ false
unfolding is_command_committed lookup
fresh = refl

committed :
    is_command_committed (master start (("bob", 4) ∷ [])) (record { clerk_id = "bob"; command = 3 })
    ≡ true
unfolding is_command_committed lookup
committed = refl

takes_after_bob :
    check_apply_command gob snapshots
      (ApplyMsg.entry (Interface.command join_all) 2 1)
      (master start (("bob", 4) ∷ []))
    ≡ ok (none, master joined (("bob", 4) ∷ ("ann", 0) ∷ []))
unfolding check_apply_command lookup cosi300a.Prelude.insert sort_ints copy_group_map
takes_after_bob = refl

abbrev leave_two : Command
leave_two = record {
  id = record { clerk_id = "ann"; command = 1 };
  type = leave_command;
  args = leave_args (record { id = record { clerk_id = "ann"; command = 1 }; gids = 2 ∷ [] });
}

abbrev begun : Master
begun = record (master start []) {
  rf = record node {
    current_term = 0;
    persister = record {
      raftstate = Encoded.state_bytes (record { term = 0; vote_for = minus_one; log = node.log });
      snapshot = Encoded.nil;
    };
  };
}

abbrev begun_joined : Master
begun_joined = record (master joined (("ann", 0) ∷ [])) { rf = begun.rf }

abbrev begun_left : Master
begun_left = record (master left (("ann", 1) ∷ [])) { rf = begun.rf }

starts : start_server gob snapshots 3 0 (make_persister Encoded.nil) 0 ≡ ok begun
unfolding start_server cosi300a.Raft.Log.get_dummy_log_index
starts = refl

serves_join :
    apply_all gob snapshots (map to_message ((join_all, 1, 1) ∷ [])) begun ≡ ok begun_joined
unfolding apply_all lookup cosi300a.Prelude.insert sort_ints copy_group_map
serves_join = refl

serves_leave :
    apply_all gob snapshots (map to_message ((leave_two, 2, 1) ∷ [])) begun_joined ≡ ok begun_left
unfolding apply_all lookup cosi300a.Prelude.delete sort_ints copy_group_map cosi300a.Prelude.insert
serves_leave = refl

serves-IsCurrent_example :
    IsCurrent (assignment begun_joined)
    × IsCurrent (assignment begun_left)
    × Extends (assignment begun_joined) (assignment begun_left)
serves-IsCurrent_example =
    serves-IsCurrent gob snapshots 3 0 0 (make_persister Encoded.nil) ((join_all, 1, 1) ∷ [])
      ((leave_two, 2, 1) ∷ []) begun begun_joined begun_left starts serves_join serves_leave
