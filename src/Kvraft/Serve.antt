-- ===== src/Kvraft/Serve.antt =====
-- src/kvraft/server.go on a log of commands: the server takes it, and serves the model's values.
use cosi300a.Prelude.{
  ℕ, ◌≡◌, ◌≢◌, refl, Option, none, List, [], ◌∷◌, map, arith, ok, String, Bool-cases, inl, inr,
  insert, lookup, string_key, All,
}
use cosi300a.Raft.Types.{Labgob}
use cosi300a.Kvraft.Types.{
  Command, CommandType, get_command, put_command, append_command, unknown_command, KvServer,
  SnapshotGob, IsFaithful,
}
use cosi300a.Kvraft.Server.{check_apply_command, apply_all, committed, run_command, appended}
use cosi300a.Kvraft.Refine.{value_at, model_run, fresh, seen_by, Entry, to_message, refines_model}
use cosi300a.Kvraft.CatchUp.{take_snapshot_ok}

-- The type of the command is one of the three.
abbrev pub IsKnown : Entry → Type 0
IsKnown (c, index, term) = c.type ≢ unknown_command

run_command_ok :
    (type : CommandType) (c : Command) (m : List (String × String))
    → type ≢ unknown_command
    → (m' : List (String × String)) × (run_command type c m ≡ ok m')
unfolding run_command
run_command_ok get_command c m known = (m, refl)
run_command_ok put_command c m known = (insert c.key c.value m, refl)
run_command_ok append_command c m known = (insert c.key (appended (lookup c.key m) c.value) m, refl)
run_command_ok unknown_command c m known = absurd (known refl)

module _ {D B : Type 0} (g : Labgob Command D B) (h : SnapshotGob D) (w : IsFaithful h) where
  entry_ok :
      (c : Command) (index term : ℕ) (kv : KvServer D B)
      → c.type ≢ unknown_command
      → (s : Option (ℕ × ℕ × D)) × (kv' : KvServer D B) × (check_apply_command g h
            (to_message (c, index, term))
            kv
          ≡ ok (s, kv'))
  unfolding check_apply_command
  entry_ok c index term kv known = elim (Bool-cases (committed kv c.id)) [
    | inl old ↦ (none, kv, ground (arith, old))
    | inr new ↦
        let (m, run) = run_command_ok c.type c kv.kv_map known in
        let next : KvServer D B = record kv {
          kv_map = m;
          last_committed_command_count =
              insert c.id.clerk_id c.id.command kv.last_committed_command_count;
        } in
        let (s, kv', taken, _) = take_snapshot_ok g h w index term next in
        (s, kv', ground (arith, new, run, taken))
  ]

  log_ok :
      (entries : List Entry) (kv : KvServer D B)
      → All IsKnown entries
      → (kv' : KvServer D B) × (apply_all g h (map to_message entries) kv ≡ ok kv')
  unfolding apply_all
  log_ok [] kv known = (kv, refl)
  log_ok ((c, index, term) ∷ entries) kv (first, rest) =
      let (s, mid, taken) = entry_ok c index term kv first in
      let (kv', done) = log_ok entries mid rest in (kv', ground (arith, taken, done))

  -- A server takes every log of gets, puts and appends without a panic, and the value of each key
  -- is then the one that the sequential model of the key computes from the log's commands, each
  -- clerk's command taken once: those that the clerk has passed already are left out. labgob is one
  -- that decodes what it encodes.
  pub serves_model :
      (entries : List Entry) (kv : KvServer D B)
      → All IsKnown entries
      → (kv' : KvServer D B) × (apply_all g h (map to_message entries) kv ≡ ok kv')
        × ((key : String)
            → value_at kv'.kv_map key
              ≡ model_run key
                  (fresh (seen_by kv) (map (λ e. e.0) entries))
                  (value_at kv.kv_map key))
  serves_model entries kv known =
      let (kv', done) = log_ok entries kv known in
      (kv', done, λ key. refines_model g h key entries kv kv' done)
