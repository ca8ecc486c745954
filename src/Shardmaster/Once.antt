-- ===== src/Shardmaster/Once.antt =====
-- src/shardmaster/server.go: a command runs once, however often it is in the log.
use cosi300a.Prelude.{
  ℕ, ◌≡◌, refl, true, false, Option, none, arith, ok, string_key, insert, lookup-insert,
}
use text.Mathlib.TextEquality.{eq_iff}
use cosi300a.Raft.Types.{ApplyMsg, Interface, Labgob}
use cosi300a.Shardmaster.Shards.{Assignment}
use cosi300a.Shardmaster.Types.{Command, CommandId, Config, ShardMaster, SnapshotGob}
use cosi300a.Shardmaster.Server.{
  check_apply_command, is_command_committed, run_command, assignment, latest_config,
}

module _ {D B : Type 0} (g : Labgob Command D B) (h : SnapshotGob D) where
  apply_commits :
      (c : Command) (index term : ℕ) (sm sm' : ShardMaster D B) (saving : Option (ℕ × ℕ × D))
      → check_apply_command g h (ApplyMsg.entry (Interface.command c) index term) sm
        ≡ ok (saving, sm')
      → is_command_committed sm' c.id ≡ true
  unfolding check_apply_command
  apply_commits c index term sm sm' saving e = ground (
    arith,
    eq_iff c.id.clerk_id c.id.clerk_id,
    lookup-insert c.id.clerk_id c.id.clerk_id c.id.command sm.last_committed_command_count,
  )

  -- A command that a master counts as committed is still committed after it takes any other command
  -- from its log.
  pub apply-keeps :
      (c : Command) (index term : ℕ) (id : CommandId) (sm sm' : ShardMaster D B)
      (saving : Option (ℕ × ℕ × D))
      → check_apply_command g h (ApplyMsg.entry (Interface.command c) index term) sm
        ≡ ok (saving, sm')
      → is_command_committed sm id ≡ true
      → is_command_committed sm' id ≡ true
  unfolding check_apply_command
  apply-keeps c index term id sm sm' saving e k = ground (
    arith,
    eq_iff c.id.clerk_id id.clerk_id,
    lookup-insert c.id.clerk_id id.clerk_id c.id.command sm.last_committed_command_count,
  )

  pub apply-skip :
      (c : Command) (index term : ℕ) (sm : ShardMaster D B)
      → is_command_committed sm c.id ≡ true
      → check_apply_command g h (ApplyMsg.entry (Interface.command c) index term) sm ≡ ok (none, sm)
  unfolding check_apply_command
  apply-skip c index term sm k = ground arith

  -- A master that has taken a command from its log takes the same command again, at any other index
  -- and term, without any change.
  pub apply_again :
      (c : Command) (index term index' term' : ℕ) (sm sm' : ShardMaster D B)
      (saving : Option (ℕ × ℕ × D))
      → check_apply_command g h (ApplyMsg.entry (Interface.command c) index term) sm
        ≡ ok (saving, sm')
      → check_apply_command g h (ApplyMsg.entry (Interface.command c) index' term') sm'
        ≡ ok (none, sm')
  apply_again c index term index' term' sm sm' saving e =
      apply-skip c index' term' sm' (apply_commits c index term sm sm' saving e)

  -- A command that is new, whose handler does not panic and leaves a latest configuration, runs,
  -- leaves what the handler leaves, and hands out no snapshot; in particular, recording its number does not panic.
  pub apply-runs :
      (c : Command) (index term : ℕ) (sm : ShardMaster D B) (a : Assignment) (last : Config)
      → is_command_committed sm c.id ≡ false
      → run_command c.type c.args (assignment sm) ≡ ok a
      → latest_config a.configs ≡ ok last
      → (sm' : ShardMaster D B) × (check_apply_command g h
            (ApplyMsg.entry (Interface.command c) index term)
            sm
          ≡ ok (none, sm'))
        × (assignment sm' ≡ a)
  unfolding check_apply_command
  apply-runs c index term sm a last fresh e printed =
      let next : ShardMaster D B = record sm {
        configs = a.configs;
        group_map = a.group_map;
        shards = a.shards;
        last_committed_command_count =
            insert c.id.clerk_id c.id.command sm.last_committed_command_count;
      } in
      (next, ground arith, refl)
