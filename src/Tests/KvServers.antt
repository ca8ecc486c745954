-- ===== src/Tests/KvServers.antt =====
-- Servers of src/kvraft/server.go, and a log with a put and a get.
use cosi300a.Prelude.{
  ℕ, ◌≡◌, refl, true, false, Option, none, some, ok, List, [], ◌∷◌, String, minus_one, arith, map,
  lookup, insert, string_key,
}
use cosi300a.Raft.Types.{Labgob, Raft, dummy_node, follower}
use cosi300a.Kvraft.Types.{
  Command, put_command, no_err, KvServer, SnapshotGob, Snapshot, IsFaithful, GetArgs,
}
use cosi300a.Kvraft.Server.{check_apply_command, apply_all, committed, run_command, encode_state}
use cosi300a.Kvraft.Requests.{get_of}
use cosi300a.Kvraft.Clerk.{Clerk, make_clerk}
use cosi300a.Kvraft.Refine.{Entry, to_message}
use cosi300a.Tests.Codec.{Encoded, codec}

pub data Blob : Type 0 where
  nothing : Blob
  blob : Snapshot → Blob

abbrev pub decoded : Blob → Option Snapshot
decoded Blob.nothing = none
decoded (Blob.blob s) = some s

abbrev pub blob_size : Blob → ℕ
blob_size Blob.nothing = 0
blob_size (Blob.blob s) = 1

abbrev pub snapshots : SnapshotGob Blob
snapshots = record { encode = λ s. some (Blob.blob s); decode = decoded; len = blob_size }

pub snapshots-IsFaithful : IsFaithful snapshots
snapshots-IsFaithful = record {
  encodes = λ s. (Blob.blob s, refl);
  decodes = λ s d e. ground (arith, e);
  nonempty = λ s d e. ground (arith, e);
}

abbrev pub Bytes : Type 0
Bytes = Encoded Command Blob

abbrev pub Server : Type 0
Server = KvServer Blob Bytes

abbrev pub gob : Labgob Command Blob Bytes
gob = codec Blob.nothing

abbrev pub node : Raft Command Blob Bytes
node = record {
  locked = false;
  peers = 3;
  persister = record { raftstate = Encoded.nil; snapshot = Encoded.nil };
  apply_ch = [];
  me = 0;
  dead = false;
  state = follower;
  current_term = 1;
  vote_for = minus_one;
  log = record { command = dummy_node; term = 0; index = 0 } ∷ [];
  commit_index = 0;
  last_applied = 0;
  next_index = [];
  match_index = [];
  election_time_stamp = 0;
  vote_count = 0;
}

abbrev pub server : List (String × String) → List (String × ℕ) → Server
server kv_map counts = record {
  me = 0;
  rf = node;
  dead = false;
  kv_map = kv_map;
  last_committed_command_count = counts;
  maxraftstate = minus_one;
  snapshot_lock = false;
}

abbrev pub clerk : Clerk
clerk = make_clerk 3 "ann"

abbrev pub empty : Server
empty = server [] []

abbrev pub put_x : Command
put_x = record {
  id = record { clerk_id = "ann"; command = 0 };
  result = "";
  type = put_command;
  key = "x";
  value = "1";
  error = no_err;
}

abbrev pub get_x : GetArgs
get_x = record { id = record { clerk_id = "ann"; command = 1 }; key = "x" }

abbrev pub has_x : Server
has_x = server (("x", "1") ∷ []) (("ann", 0) ∷ [])

abbrev pub answered_x : Server
answered_x = server (("x", "1") ∷ []) (("ann", 1) ∷ [])

abbrev pub log : List Entry
log = (put_x, 1, 1) ∷ (put_x, 2, 1) ∷ (get_of get_x, 3, 1) ∷ []

pub puts : check_apply_command gob snapshots (to_message (put_x, 1, 1)) empty ≡ ok (none, has_x)
unfolding check_apply_command lookup insert
puts = refl

pub gets_x :
    check_apply_command gob snapshots (to_message (get_of get_x, 3, 1)) has_x
    ≡ ok (none, answered_x)
unfolding check_apply_command lookup insert
gets_x = refl

pub runs : apply_all gob snapshots (map to_message log) empty ≡ ok answered_x
unfolding apply_all check_apply_command lookup insert
runs = refl

pub has_x-committed : committed has_x put_x.id ≡ true
unfolding committed lookup
has_x-committed = refl

pub stores : run_command put_command put_x [] ≡ ok has_x.kv_map
unfolding run_command insert
stores = refl

abbrev pub other : Server
other = record empty { me = 2 }

pub encoded :
    encode_state gob snapshots empty
    ≡ ok (Blob.blob (record { kv_map = []; last_committed_command_count = [] }))
unfolding encode_state
encoded = refl
