-- ===== src/Tests/Threads.antt =====
-- A server of src/kvraft/server.go that takes a command while a thread saves its snapshot.
use cosi300a.Prelude.{◌≡◌, ◌⊎◌, inl, refl, true, false, ok, none, some, List, [], ◌∷◌, ◌++◌, pos, ℕ}
use cosi300a.Raft.Types.{ApplyMsg}
use cosi300a.Kvraft.Types.{Command}
use cosi300a.Kvraft.Server.{saves, releases, run_saver, check_apply_command, apply_all}
use cosi300a.Kvraft.Requests.{get_of}
use cosi300a.Kvraft.Refine.{to_message}
use cosi300a.Kvraft.CatchUp.{Agrees}
use cosi300a.Kvraft.Threads.{
  Threaded, Moves, Interleaved, IsLocked, interleaved-IsLocked, interleaved-Agrees,
}
use cosi300a.Tests.KvServers.{
  Blob, Bytes, Server, snapshots, snapshots-IsFaithful, gob, empty, put_x, get_x, has_x,
}
use cosi300a.Tests.Crash.{peer, server, bytes, saved, saves_one}

abbrev idle : Server
idle = record empty { rf = peer; maxraftstate = pos 1 }

abbrev held : Server
held = record has_x { rf = peer; maxraftstate = pos 1; snapshot_lock = true }

abbrev put_message : ApplyMsg Command Blob
put_message = to_message (put_x, 1, 1)

abbrev get_message : ApplyMsg Command Blob
get_message = to_message (get_of get_x, 3, 1)

abbrev first : Threaded Blob Bytes
first = record { server = idle; savers = [] }

abbrev busy : Threaded Blob Bytes
busy = record { server = server; savers = saves (1, 1, bytes) ∷ [] }

abbrev last : Threaded Blob Bytes
last = record { server = record saved { snapshot_lock = false }; savers = [] }

takes_put : check_apply_command gob snapshots put_message idle ≡ ok (some (1, 1, bytes), held)
unfolding check_apply_command cosi300a.Prelude.lookup cosi300a.Raft.Node.get_log_length
    cosi300a.Prelude.insert
takes_put = refl

takes_get : check_apply_command gob snapshots get_message held ≡ ok (none, server)
unfolding check_apply_command cosi300a.Prelude.lookup cosi300a.Raft.Node.get_log_length
    cosi300a.Prelude.insert
takes_get = refl

works : Interleaved gob snapshots first (put_message ∷ get_message ∷ []) busy
works =
    Interleaved.move
      (Interleaved.move Interleaved.begin
        (Moves.receive put_message (some (1, 1, bytes)) peer held takes_put))
      (Moves.receive get_message none peer server takes_get)

ends : run_saver gob snapshots releases saved ≡ ok (none, last.server)
unfolding run_saver
ends = refl

saves_late : Interleaved gob snapshots first (put_message ∷ get_message ∷ []) last
saves_late =
    Interleaved.move
      (Interleaved.move works
        (Moves.save [] [] (saves (1, 1, bytes)) (some releases) saved refl saves_one))
      (Moves.save [] [] releases none last.server refl ends)

interleaved-IsLocked_example : IsLocked gob snapshots busy
interleaved-IsLocked_example =
    interleaved-IsLocked gob snapshots first busy (put_message ∷ get_message ∷ []) works
      (inl (refl, refl))

interleaved-Agrees_example :
    (kv' : Server) × (apply_all gob snapshots (put_message ∷ get_message ∷ []) empty ≡ ok kv')
    × Agrees last.server kv'
interleaved-Agrees_example =
    interleaved-Agrees gob snapshots snapshots-IsFaithful first last
      (put_message ∷ get_message ∷ []) empty saves_late (record { kv_map = refl; counts = refl })
