-- ===== src/Shardmaster/Serve.antt =====
-- src/shardmaster/server.go from its start on: the history over a log of commands.
use cosi300a.Prelude.{
  ℕ, ◌≡◌, ◌<◌, length, refl, ap, sym, subst, ◌∙◌, false, Option, some, List, [], ◌∷◌, map, arith,
  ok, panic, Result-cases, Bool-cases, inl, inr, get_elem?, string_key, replicate,
}
use cosi300a.Raft.Types.{ApplyMsg, Interface, Labgob}
use cosi300a.Raft.Persister.{Persister}
use cosi300a.Raft.Node
use cosi300a.Shardmaster.Types.{Command, Config, ShardMaster, SnapshotGob, n_shards}
use cosi300a.Shardmaster.Shards.{Assignment}
use cosi300a.Shardmaster.Server.{
  check_apply_command, apply_all, is_command_committed, run_command, assignment, start_server,
  latest_config,
}
use cosi300a.Shardmaster.History.{IsCurrent, run_command-IsCurrent}
use cosi300a.Shardmaster.Configs.{NumberedFrom, NumberedFrom-last, NumberedFrom-at}
use cosi300a.Shardmaster.Once.{apply-runs, apply-skip}

-- A command of the log, with the index and the term of its entry.
abbrev pub Entry : Type 0
Entry = Command × ℕ × ℕ

abbrev pub to_message : {D : Type 0} → Entry → ApplyMsg Command D
to_message (c, index, term) = ApplyMsg.entry (Interface.command c) index term

-- The configurations of the first are those of the second, as far as they go.
abbrev pub Extends : Assignment → Assignment → Type 0
Extends a b = (i : ℕ) (c : Config) → get_elem? a.configs i ≡ some c → get_elem? b.configs i ≡ some c

-- The latest configuration of a numbered history can be printed.
latest_config_ok :
    (configs : List Config)
    → NumberedFrom 0 configs
    → 0 < length configs
    → (c : Config) × (latest_config configs ≡ ok c)
unfolding latest_config
latest_config_ok configs h lt =
    let (last, e, k) = NumberedFrom-last 0 configs h lt in
    let (c, e', _) = NumberedFrom-at 0 last.num configs h (omega (arith, k)) in
    (c, ground (arith, e, e'))

module _ {D B : Type 0} (g : Labgob Command D B) (h : SnapshotGob D) where
  apply-panics :
      (c : Command) (index term : ℕ) (sm : ShardMaster D B)
      → is_command_committed sm c.id ≡ false
      → run_command c.type c.args (assignment sm) ≡ panic
      → check_apply_command g h (ApplyMsg.entry (Interface.command c) index term) sm ≡ panic
  unfolding check_apply_command
  apply-panics c index term sm fresh e = ground arith

  entry-IsCurrent :
      (c : Command) (index term : ℕ) (sm sm' : ShardMaster D B) (saving : Option (ℕ × ℕ × D))
      → IsCurrent (assignment sm)
      → check_apply_command g h (ApplyMsg.entry (Interface.command c) index term) sm
        ≡ ok (saving, sm')
      → IsCurrent (assignment sm') × Extends (assignment sm) (assignment sm')
  entry-IsCurrent c index term sm sm' saving k e =
      elim (Bool-cases (is_command_committed sm c.id)) [
        | inl old ↦
            let same : sm ≡ sm' = ground (arith, e, apply-skip g h c index term sm old) in
            rw (sym same) (k, λ i d at. at)
        | inr new ↦
            Result-cases (run_command c.type c.args (assignment sm))
              (λ a run.
                let kept = run_command-IsCurrent c.type c.args (assignment sm) a k run in
                let (last, printed) = latest_config_ok a.configs kept.0.numbered kept.0.nonempty in
                let (sm1, taken, holds) = apply-runs g h c index term sm a last new run printed in
                let same : sm1 ≡ sm' = ground (arith, e, taken) in
                let ends : a ≡ assignment sm' = sym holds ∙ ap assignment same in
                subst (λ x. IsCurrent x × Extends (assignment sm) x) ends kept)
              (λ stop. ground (arith, e, apply-panics c index term sm new stop))
      ]

  log-IsCurrent :
      (entries : List Entry) (sm sm' : ShardMaster D B)
      → IsCurrent (assignment sm)
      → apply_all g h (map to_message entries) sm ≡ ok sm'
      → IsCurrent (assignment sm') × Extends (assignment sm) (assignment sm')
  unfolding apply_all
  log-IsCurrent [] sm sm' k e =
      let same : sm ≡ sm' = ground (arith, e) in rw (sym same) (k, λ i d at. at)
  log-IsCurrent ((c, index, term) ∷ entries) sm sm' k e =
      Result-cases (check_apply_command g h (to_message (c, index, term)) sm)
        (λ (saving, mid) first.
          let (now, kept) = entry-IsCurrent c index term sm mid saving k first in
          let (later, kept') = log-IsCurrent entries mid sm' now (ground (arith, e, first)) in
          (later, λ i d at. kept' i d (kept i d at)))
        (λ p. ground (arith, e, p))

  start-IsCurrent :
      (servers me now : ℕ) (ps : Persister B) (sm : ShardMaster D B)
      → start_server g h servers me ps now ≡ ok sm
      → IsCurrent (assignment sm)
  unfolding start_server
  start-IsCurrent servers me now ps sm e =
      Result-cases (Node.make g servers me ps now)
        (λ rf made.
          let same : assignment sm ≡ first_assignment = ground (arith, e, made) in
          rw same first-IsCurrent)
        (λ p. ground (arith, e, p))
    where
      first_config : Config
      first_config = record { num = 0; shards = replicate n_shards 0; groups = [] }

      first_assignment : Assignment
      first_assignment = record {
        configs = first_config ∷ [];
        group_map = [];
        shards = replicate n_shards 0;
      }

      first-IsCurrent : IsCurrent first_assignment
      first-IsCurrent = record {
        numbered = (refl, tt);
        nonempty = omega arith;
        distinct = tt;
        latest = first_config;
        is_latest = refl;
        shards = refl;
        groups = λ gid. refl;
      }

  -- A master that starts, from any persister, and takes two logs of commands one after the other
  -- without a panic has, after each, a history of configurations that is numbered from 0 and whose
  -- latest one has the shards of the state and, for each group id, its servers; and every
  -- configuration of the first history is in the second, at the same place.
  pub serves-IsCurrent :
      (servers me now : ℕ) (ps : Persister B) (entries more : List Entry)
      (sm sm1 sm2 : ShardMaster D B)
      → start_server g h servers me ps now ≡ ok sm
      → apply_all g h (map to_message entries) sm ≡ ok sm1
      → apply_all g h (map to_message more) sm1 ≡ ok sm2
      → IsCurrent (assignment sm1)
        × IsCurrent (assignment sm2)
        × Extends (assignment sm1) (assignment sm2)
  serves-IsCurrent servers me now ps entries more sm sm1 sm2 e e1 e2 =
      let (now1, _) = log-IsCurrent entries sm sm1 (start-IsCurrent servers me now ps sm e) e1 in
      let (now2, kept) = log-IsCurrent more sm1 sm2 now1 e2 in (now1, now2, kept)
