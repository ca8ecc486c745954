-- ===== src/Shardmaster/Requests.antt =====
-- The requests of src/shardmaster/server.go. One that waits is the part before the wait and the part
-- that reads the states which it finds when it looks again.
use cosi300a.Prelude.{
  Bool, false, not, none, some, List, [], ◌∷◌, Result, ok, panic, Go, pure, gets, ◌>>=◌,
  if◌then◌else◌, string_key,
}
use cosi300a.Raft.Types.{Labgob}
use cosi300a.Raft.Node
use cosi300a.Shardmaster.Shards.{handle_query}
use cosi300a.Shardmaster.Types.{
  CommandId, Err, err_time_out, move_command, join_command, leave_command, query_command, JoinArgs,
  LeaveArgs, MoveArgs, QueryArgs, Reply, QueryReply, join_args, leave_args, move_args, query_args,
  Command, ShardMaster,
}
use cosi300a.Shardmaster.Server.{is_command_committed}

module _ {D B : Type 0} where
  -- The wait of `Join`, `Leave` and `Move`: the states found until `CommandTimeOut` has passed.
  unfoldable pub await_commit : CommandId → List (ShardMaster D B) → Reply
  unfolding is_command_committed
  await_commit id [] = record { wrong_leader = false; err = err_time_out }
  await_commit id (sm ∷ later) =
      let rest = await_commit id later in
      if is_command_committed sm id then record { wrong_leader = false; err = Err.ok } else rest

  -- The wait of `Query`.
  unfoldable pub await_query : QueryArgs → List (ShardMaster D B) → Result QueryReply
  unfolding is_command_committed
  await_query args [] = ok (record { wrong_leader = false; err = err_time_out; config = none })
  await_query args (sm ∷ later) =
      let rest = await_query args later in
      if is_command_committed sm args.id
      then elim (handle_query args.num sm.configs) [
        | panic ↦ panic
        | ok config ↦ ok (record { wrong_leader = false; err = Err.ok; config = some config })
      ]
      else rest

module _ {D B : Type 0} (g : Labgob Command D B) where
  -- `sm.rf.Start(command)`: whether the peer is the leader.
  unfoldable pub start_on_raft : Command → Go (ShardMaster D B) Bool
  start_on_raft c sm = elim (Node.start g c sm.rf) [
    | panic ↦ panic
    | ok ((_, _, leads), rf) ↦ ok (leads, record sm { rf = rf })
  ]

  -- What the four requests share up to the wait: `true` where it returns at once, as the wrong leader.
  unfoldable pub submit : Command → Go (ShardMaster D B) Bool
  unfolding is_command_committed start_on_raft
  submit c = do
    sm ← gets (λ sm. sm)
    if is_command_committed sm c.id
        then pure false
        else (do leads ← start_on_raft c; pure (not leads))

  unfoldable pub join : JoinArgs → Go (ShardMaster D B) Bool
  unfolding submit
  join args = submit (record { id = args.id; type = join_command; args = join_args args })

  unfoldable pub leave : LeaveArgs → Go (ShardMaster D B) Bool
  unfolding submit
  leave args = submit (record { id = args.id; type = leave_command; args = leave_args args })

  unfoldable pub move : MoveArgs → Go (ShardMaster D B) Bool
  unfolding submit
  move args = submit (record { id = args.id; type = move_command; args = move_args args })

  unfoldable pub query : QueryArgs → Go (ShardMaster D B) Bool
  unfolding submit
  query args = submit (record { id = args.id; type = query_command; args = query_args args })
