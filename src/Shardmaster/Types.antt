-- ===== src/Shardmaster/Types.antt =====
-- The data of src/shardmaster/common.go and server.go. Group ids are natural numbers, 0 the invalid
-- group; a clerk's UUID is its canonical string.
use cosi300a.Prelude.{ℕ, ◌≡◌, ◌≢◌, Bool, Option, some, List, String, ℤ, ◌∷◌, [], insert, nat_key}
use cosi300a.Raft.Types.{Raft}

abbrev pub n_shards : ℕ
n_shards = 10

-- A map from group ids to servers.
abbrev pub Groups : Type 0
Groups = List (ℕ × List String)

pub record Config : Type 0 where
  pub num : ℕ
  pub shards : List ℕ
  pub groups : Groups

pub record CommandId : Type 0 where
  pub clerk_id : String
  pub command : ℕ

pub data Err : Type 0 where
  no_err ok err_no_key err_wrong_leader err_time_out : Err

pub data CommandType : Type 0 where
  move_command join_command leave_command query_command unknown_command : CommandType

pub record JoinArgs : Type 0 where
  pub id : CommandId
  pub servers : Groups

pub record LeaveArgs : Type 0 where
  pub id : CommandId
  pub gids : List ℕ

pub record MoveArgs : Type 0 where
  pub id : CommandId
  pub shard : ℕ
  pub gid : ℕ

pub record QueryArgs : Type 0 where
  pub id : CommandId
  pub num : ℤ

-- `JoinReply`, `LeaveReply` and `MoveReply`, which have the same fields.
pub record Reply : Type 0 where
  pub wrong_leader : Bool
  pub err : Err

-- `Config` is the zero value, here `none`, unless the query succeeds.
pub record QueryReply : Type 0 where
  pub wrong_leader : Bool
  pub err : Err
  pub config : Option Config

-- The `interface{}` that holds a command's arguments.
pub data Args : Type 0 where
  join_args : JoinArgs → Args
  leave_args : LeaveArgs → Args
  move_args : MoveArgs → Args
  query_args : QueryArgs → Args

-- `Error` is neither set nor read, and is left out.
pub record Command : Type 0 where
  pub id : CommandId
  pub type : CommandType
  pub args : Args

pub record Snapshot : Type 0 where
  pub configs : List Config
  pub group_map : Groups
  pub shards : List ℕ
  pub last_committed_command_count : List (String × ℕ)

pub record ShardMaster (D B : Type 0) : Type 0 where
  pub me : ℕ
  pub rf : Raft Command D B
  pub configs : List Config
  pub dead : Bool
  pub group_map : Groups
  pub shards : List ℕ
  pub last_committed_command_count : List (String × ℕ)
  pub snapshot_lock : Bool

-- labgob on the master's snapshots.
pub record SnapshotGob (D : Type 0) : Type 0 where
  pub encode : Snapshot → Option D
  pub decode : D → Option Snapshot
  pub len : D → ℕ

pub record IsFaithful {D : Type 0} (h : SnapshotGob D) : Type 0 where
  pub encodes : (s : Snapshot) → (d : D) × (h.encode s ≡ some d)
  pub decodes : (s : Snapshot) (d : D) → h.encode s ≡ some d → h.decode d ≡ some s
  pub nonempty : (s : Snapshot) (d : D) → h.encode s ≡ some d → h.len d ≢ 0

-- Every server list is copied into a new map; the copies are equal to the originals.
unfoldable pub copy_into : Groups → Groups → Groups
copy_into copied [] = copied
copy_into copied ((gid, servers) ∷ rest) = copy_into (insert gid servers copied) rest

unfoldable pub copy_group_map : Groups → Groups
unfolding copy_into
copy_group_map group_map = copy_into [] group_map
