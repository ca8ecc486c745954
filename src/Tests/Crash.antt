-- ===== src/Tests/Crash.antt =====
-- A server of src/kvraft/server.go that crashes after it has saved a snapshot.
use cosi300a.Prelude.{
  ℕ, ◌≡◌, refl, true, false, some, ok, List, [], ◌∷◌, map, arith, pos, minus_one,
}
use cosi300a.Raft.Types.{command, dummy_node, LogItem, Raft, PersistState, ApplyMsg}
use cosi300a.Raft.Run.Defs.{IsDurable}
use cosi300a.Kvraft.Types.{Command}
use cosi300a.Kvraft.Server.{
  encode_state, apply_all, Saver, saves, releases, run_saver, start_kv_server,
}
use cosi300a.Kvraft.Requests.{get_of}
use cosi300a.Kvraft.Refine.{to_message}
use cosi300a.Kvraft.CatchUp.{Agrees}
use cosi300a.Kvraft.Restart.{restarts, remade}
use cosi300a.Kvraft.Start.{start_kv_server-unlocked}
use cosi300a.Raft.Node.{make}
use cosi300a.Tests.Codec.{Encoded, codec-IsCodec}
use cosi300a.Tests.KvServers.{
  Blob, Bytes, Server, snapshots, snapshots-IsFaithful, gob, node, put_x, get_x, has_x, answered_x,
}

abbrev pub kept : List (LogItem Command)
kept =
    record { command = command put_x; term = 1; index = 1 }
    ∷ record { command = command put_x; term = 1; index = 2 }
    ∷ record { command = command (get_of get_x); term = 1; index = 3 }
    ∷ []

abbrev pub whole : List (LogItem Command)
whole = record { command = dummy_node; term = 0; index = 0 } ∷ kept

abbrev pub state : List (LogItem Command) → PersistState Command
state log = record { term = 1; vote_for = minus_one; log = log }

abbrev pub peer : Raft Command Blob Bytes
peer = record node {
  log = whole;
  commit_index = 3;
  persister = record { raftstate = Encoded.state_bytes (state whole); snapshot = Encoded.nil };
}

abbrev pub server : Server
server = record answered_x { rf = peer; maxraftstate = pos 1; snapshot_lock = true }

abbrev pub bytes : Blob
bytes = Blob.blob (record {
  kv_map = has_x.kv_map;
  last_committed_command_count = has_x.last_committed_command_count;
})

abbrev pub saved : Server
saved = record server {
  rf = record peer {
    log = kept;
    persister = record {
      raftstate = Encoded.state_bytes (state kept);
      snapshot =
          Encoded.snapshot_bytes (record {
            state_machine_state = bytes;
            last_included_index = 1;
            last_included_term = 1;
          });
    };
  };
}

abbrev later : List (ApplyMsg Command Blob)
later = map to_message ((put_x, 2, 1) ∷ (get_of get_x, 3, 1) ∷ [])

encodes : encode_state gob snapshots has_x ≡ ok bytes
unfolding encode_state
encodes = refl

goes_on : apply_all gob snapshots later has_x ≡ ok answered_x
unfolding apply_all cosi300a.Kvraft.Server.check_apply_command cosi300a.Prelude.lookup
    cosi300a.Prelude.insert
goes_on = refl

pub saves_one : run_saver gob snapshots (saves (1, 1, bytes)) server ≡ ok (some releases, saved)
unfolding run_saver cosi300a.Raft.Log.log_contain_index cosi300a.Raft.Log.get_log_item_slice
saves_one = refl

peer-IsDurable : IsDurable gob peer
peer-IsDurable = record { saved = refl; nonempty = refl }

restarts_example :
    (back after : Server) × (start_kv_server gob snapshots 3 0 saved.rf.persister (pos 1) 9
      ≡ ok back)
    × Agrees has_x back
    × (back.rf.log ≡ kept)
    × (back.rf.commit_index ≡ 1)
    × (apply_all gob snapshots later back ≡ ok after)
    × Agrees answered_x after
restarts_example =
    restarts gob (codec-IsCodec Blob.nothing) snapshots snapshots-IsFaithful has_x answered_x server
      saved 1 1 3 9 bytes (some releases) later encodes goes_on peer-IsDurable
      (refl, (refl, (refl, tt))) (omega arith) (omega arith) refl saves_one

abbrev back : Server
back = record has_x { rf = remade gob 3 0 9 1 saved.rf; maxraftstate = pos 1 }

starts : start_kv_server gob snapshots 3 0 saved.rf.persister (pos 1) 9 ≡ ok back
unfolding start_kv_server cosi300a.Raft.Log.get_dummy_log_index
starts = refl

start_kv_server-unlocked_example :
    (make gob 3 0 saved.rf.persister 9 ≡ ok back.rf) × (back.rf.locked ≡ false)
start_kv_server-unlocked_example =
    start_kv_server-unlocked gob snapshots 3 0 9 saved.rf.persister (pos 1) back starts
