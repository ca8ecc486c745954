-- ===== src/Kvraft/Once.antt =====
-- src/kvraft/server.go: a command runs once, however often it is in the log.
use cosi300a.Prelude.{ℕ, ◌≡◌, true, Option, none, arith, ok, string_key, lookup-insert}
use text.Mathlib.TextEquality.{eq_iff}
use cosi300a.Raft.Types.{ApplyMsg, Interface, Labgob}
use cosi300a.Kvraft.Types.{Command, CommandId, KvServer, SnapshotGob}
use cosi300a.Kvraft.Server.{check_apply_command, committed}

module _ {D B : Type 0} (g : Labgob Command D B) (h : SnapshotGob D) where
  -- A command that has been taken from the log is committed, and so is every command that was.
  pub apply_commits :
      (c : Command) (index term : ℕ) (kv kv' : KvServer D B) (saving : Option (ℕ × ℕ × D))
      → check_apply_command g h (ApplyMsg.entry (Interface.command c) index term) kv
        ≡ ok (saving, kv')
      → committed kv' c.id ≡ true
  unfolding check_apply_command
  apply_commits c index term kv kv' saving e = ground (
    arith,
    eq_iff c.id.clerk_id c.id.clerk_id,
    lookup-insert c.id.clerk_id c.id.clerk_id c.id.command kv.last_committed_command_count,
  )

  -- A command that a server counts as committed is still committed after it takes any other command
  -- from its log.
  pub apply_keeps_committed :
      (c : Command) (index term : ℕ) (id : CommandId) (kv kv' : KvServer D B)
      (saving : Option (ℕ × ℕ × D))
      → check_apply_command g h (ApplyMsg.entry (Interface.command c) index term) kv
        ≡ ok (saving, kv')
      → committed kv id ≡ true
      → committed kv' id ≡ true
  unfolding check_apply_command
  apply_keeps_committed c index term id kv kv' saving e k = ground (
    arith,
    eq_iff c.id.clerk_id id.clerk_id,
    lookup-insert c.id.clerk_id id.clerk_id c.id.command kv.last_committed_command_count,
  )

  -- A committed command is passed over.
  pub apply-skip :
      (c : Command) (index term : ℕ) (kv : KvServer D B)
      → committed kv c.id ≡ true
      → check_apply_command g h (ApplyMsg.entry (Interface.command c) index term) kv ≡ ok (none, kv)
  unfolding check_apply_command
  apply-skip c index term kv k = ground arith

  -- A server that has taken a command from its log takes the same command again, at any other index
  -- and term, without any change and without a snapshot.
  pub apply_twice :
      (c : Command) (index term index' term' : ℕ) (kv kv' : KvServer D B)
      (saving : Option (ℕ × ℕ × D))
      → check_apply_command g h (ApplyMsg.entry (Interface.command c) index term) kv
        ≡ ok (saving, kv')
      → check_apply_command g h (ApplyMsg.entry (Interface.command c) index' term') kv'
        ≡ ok (none, kv')
  apply_twice c index term index' term' kv kv' saving e =
      apply-skip c index' term' kv' (apply_commits c index term kv kv' saving e)
