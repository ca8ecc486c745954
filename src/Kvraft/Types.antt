-- ===== src/Kvraft/Types.antt =====
-- The data of src/kvraft/common.go, client.go and server.go. A clerk's UUID is its canonical string,
-- by which the servers know it; command numbers count up from 0.
use cosi300a.Prelude.{ℕ, ◌≡◌, ◌≢◌, Bool, Option, some, List, String, ℤ}
use cosi300a.Raft.Types.{Raft}

pub data CommandType : Type 0 where
  get_command put_command append_command : CommandType
  unknown_command : CommandType  -- any other string

pub data Err : Type 0 where
  no_err ok err_no_key err_wrong_leader err_time_out : Err

pub record CommandId : Type 0 where
  pub clerk_id : String
  pub command : ℕ

pub record Command : Type 0 where
  pub id : CommandId
  pub result : String
  pub type : CommandType
  pub key : String
  pub value : String
  pub error : Err

pub record PutAppendArgs : Type 0 where
  pub id : CommandId
  pub key : String
  pub value : String
  pub op : String

pub record PutAppendReply : Type 0 where
  pub err : Err

pub record GetArgs : Type 0 where
  pub id : CommandId
  pub key : String

pub record GetReply : Type 0 where
  pub value : String
  pub err : Err

pub record Snapshot : Type 0 where
  pub kv_map : List (String × String)
  pub last_committed_command_count : List (String × ℕ)

-- `rf` is the peer of this server, `D` and `B` the bytes of the two levels of encoding.
pub record KvServer (D B : Type 0) : Type 0 where
  pub me : ℕ
  pub rf : Raft Command D B
  pub dead : Bool
  pub kv_map : List (String × String)
  pub last_committed_command_count : List (String × ℕ)
  pub maxraftstate : ℤ
  pub snapshot_lock : Bool

-- labgob on the server's snapshots.
pub record SnapshotGob (D : Type 0) : Type 0 where
  pub encode : Snapshot → Option D
  pub decode : D → Option Snapshot
  pub len : D → ℕ

-- What the server relies on: encoding succeeds, is not empty, and decodes to the same value.
pub record IsFaithful {D : Type 0} (h : SnapshotGob D) : Type 0 where
  pub encodes : (s : Snapshot) → (d : D) × (h.encode s ≡ some d)
  pub decodes : (s : Snapshot) (d : D) → h.encode s ≡ some d → h.decode d ≡ some s
  pub nonempty : (s : Snapshot) (d : D) → h.encode s ≡ some d → h.len d ≢ 0
