-- ===== src/Tests/Snapshots.antt =====
-- Snapshots and majorities of src/raft/raft.go.
use cosi300a.Prelude.{
  ℕ, ◌-◌, ◌≡◌, ◌≤◌, ◌<◌, ◌↔◌, inr, refl, true, some, ok, List, [], ◌∷◌, ◌++◌, minus_one, pos, arith,
  length, drop, count_ge,
}
use cosi300a.Raft.Types.{
  InstallSnapshotArg, InstallSnapshotReply, dummy_node, snapshot, follower, leader,
}
use cosi300a.Raft.Log.{find_match, get_majority_count}
use cosi300a.Raft.Snapshot.{
  save_snapshot, install_snapshot, handle_snapshot_reply, get_snapshot_raft_object,
  get_kv_snapshot_byte,
}
use cosi300a.Raft.Contiguous.{IsLog, first, final}
use cosi300a.Raft.Run.Defs.{persistent}
use cosi300a.Raft.Compact.{
  save_snapshot_lem, save_snapshot-outside, install_snapshot_lem, install_unheard,
}
use cosi300a.Raft.Majority.{find_match-majority, find_match-even}
use cosi300a.Tests.Codec.{
  Log, codec-IsCodec, Peer, gob, item, dummy, peer, state_bytes, snapshot_bytes,
}

abbrev log : Log
log = dummy ∷ item 1 1 ∷ item 2 2 ∷ item 2 3 ∷ []

abbrev full : Peer
full = peer 1 follower 2 minus_one log

abbrev chief : Peer
chief = peer 0 leader 2 (pos 0) log

abbrev arg : InstallSnapshotArg ℕ
arg = record {
  term = 2;
  leader_id = 0;
  last_included_index = 5;
  last_included_term = 2;
  payload = 77;
}

abbrev reply : InstallSnapshotReply
reply = record { term = 0 }

abbrev restart_log : Log
restart_log = record { command = dummy_node; term = 2; index = 5 } ∷ []

abbrev installed : Peer
installed = record full {
  log = restart_log;
  commit_index = 5;
  apply_ch = snapshot 77 minus_one minus_one ∷ [];
  persister = record {
    raftstate = state_bytes (record { term = 2; vote_for = minus_one; log = restart_log });
    snapshot =
        snapshot_bytes
          (record { state_machine_state = 77; last_included_index = 5; last_included_term = 2 });
  };
}

installs : install_snapshot gob 8 arg full ≡ ok (reply, installed)
unfolding install_snapshot
installs = refl

nothing_stored : get_kv_snapshot_byte gob full ≡ ok (0, record full { locked = true })
unfolding get_kv_snapshot_byte
nothing_stored = refl

save_snapshot_lem_example :
    (after : Peer) × (save_snapshot gob 2 2 42 full ≡ ok (tt, after))
    × (after.log ≡ drop (2 - first log) log)
    × IsLog after.log
    × (first after.log ≡ 2)
    × (final after.log ≡ final log)
    × (gob.decode_state after.persister.raftstate ≡ some (persistent after))
    × (get_snapshot_raft_object gob after
        ≡ ok (record { state_machine_state = 42; last_included_index = 2; last_included_term = 2 }))
save_snapshot_lem_example =
    save_snapshot_lem gob 2 2 42 full (codec-IsCodec 0) (refl, (refl, (refl, tt))) (omega arith)
      (omega arith)

save_snapshot-outside_example : save_snapshot gob 9 2 42 full ≡ ok (tt, full)
save_snapshot-outside_example =
    save_snapshot-outside gob 9 2 42 full (refl, (refl, (refl, tt))) (inr (omega arith))

install_snapshot_lem_example :
    (after : Peer) × (install_snapshot gob 8 arg full ≡ ok (record { term = 0 }, after))
    × (after.current_term ≡ 2)
    × (after.log ≡ record { command = dummy_node; term = 2; index = 5 } ∷ [])
    × (after.commit_index ≡ 5)
    × (after.apply_ch ≡ full.apply_ch ++ snapshot 77 minus_one minus_one ∷ [])
    × (get_snapshot_raft_object gob after
        ≡ ok (record { state_machine_state = 77; last_included_index = 5; last_included_term = 2 }))
install_snapshot_lem_example = install_snapshot_lem gob 8 arg full (codec-IsCodec 0) (omega arith)

install_unheard_example : handle_snapshot_reply gob 9 1 arg reply chief ≡ ok (tt, chief)
install_unheard_example =
    install_unheard gob 8 9 1 arg full installed chief reply installs (omega arith) (omega arith)

middle : find_match (7 ∷ 0 ∷ 4 ∷ []) ≡ ok 4
unfolding find_match
middle = refl

find_match-majority_example : (3 ≤ 4) ↔ (get_majority_count 3 ≤ count_ge 3 (7 ∷ 0 ∷ 4 ∷ []))
find_match-majority_example = find_match-majority (7 ∷ 0 ∷ 4 ∷ []) 4 3 middle refl

abbrev halves : List ℕ
halves = 6 ∷ 0 ∷ 6 ∷ 0 ∷ []

find_match-even_example :
    (find_match halves ≡ ok 6) × (count_ge 6 halves < get_majority_count (length halves))
find_match-even_example =
    find_match-even 2 6 halves (omega arith) refl refl
      (omega arith, (omega arith, (omega arith, (omega arith, tt))))
