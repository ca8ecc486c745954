-- ===== src/Kvraft/Requests.antt =====
-- The handlers of src/kvraft/server.go. One that waits is the part before the wait and the part that
-- reads the states which it finds when it looks again.
use cosi300a.Prelude.{
  string_key, Bool, true, Option, none, some, List, [], ◌∷◌, String, Result, ok, panic, Go, pure,
  gets, lift, ◌>>=◌, if◌then◌else◌, ltb, ◌==◌, lookup,
}
use cosi300a.Raft.Types.{Labgob}
use cosi300a.Raft.Node
use cosi300a.Raft.Node.{make}
use cosi300a.Kvraft.Types.{
  CommandType, get_command, put_command, append_command, Err, no_err, err_no_key, err_wrong_leader,
  err_time_out, CommandId, Command, PutAppendArgs, PutAppendReply, GetArgs, GetReply, KvServer,
}
use cosi300a.Kvraft.Server.{committed}

abbrev pub found : Option String → GetReply
found none = record { value = ""; err = err_no_key }
found (some value) = record { value = value; err = Err.ok }

abbrev pub get_of : GetArgs → Command
get_of args = record {
  id = args.id;
  result = "";
  type = get_command;
  key = args.key;
  value = "";
  error = no_err;
}

abbrev pub type_of_op : String → Result CommandType
type_of_op op =
    if op == "Put" then ok put_command else if op == "Append" then ok append_command else panic

-- The command that `PutAppend` hands to the log.
unfoldable pub put_append_of : PutAppendArgs → Result Command
put_append_of args = elim (type_of_op args.op) [
  | panic ↦ panic
  | ok type ↦ ok (record {
    id = args.id;
    result = "";
    type = type;
    key = args.key;
    value = args.value;
    error = no_err;
  })
]

module _ {D B : Type 0} where
  -- `!ok || lastCommitCommand < args.Id.Command`
  unfoldable pub not_committed : KvServer D B → CommandId → Bool
  not_committed kv id = elim (lookup id.clerk_id kv.last_committed_command_count) [
    | none ↦ true
    | some last ↦ ltb last id.command
  ]

module _ {D B : Type 0} (g : Labgob Command D B) where
  -- `kv.rf.Start(command)`: whether the peer is the leader.
  unfoldable pub start_on_raft : Command → Go (KvServer D B) Bool
  start_on_raft c kv = elim (Node.start g c kv.rf) [
    | panic ↦ panic
    | ok ((_, _, leads), rf) ↦ ok (leads, record kv { rf = rf })
  ]

  -- `Get` up to the wait: `some` where it returns at once.
  unfoldable pub get : GetArgs → Go (KvServer D B) (Option GetReply)
  unfolding not_committed start_on_raft
  get args = do
    kv ← gets (λ kv. kv)
    if not_committed kv args.id
        then (do
          leads ← start_on_raft (get_of args)
          pure (if leads then none else some (record { value = ""; err = err_wrong_leader })))
        else pure none

  -- `PutAppend` up to the wait.
  unfoldable pub put_append : PutAppendArgs → Go (KvServer D B) (Option PutAppendReply)
  unfolding not_committed start_on_raft put_append_of
  put_append args = do
    kv ← gets (λ kv. kv)
    if not_committed kv args.id
        then (do
          c ← lift (put_append_of args)
          leads ← start_on_raft c
          pure (if leads then none else some (record { err = err_wrong_leader })))
        else pure none

module _ {D B : Type 0} where
  -- The wait of `Get`: the states that it finds until `CommandTimeOut` has passed.
  unfoldable pub await_get : GetArgs → List (KvServer D B) → GetReply
  unfolding committed
  await_get args [] = record { value = ""; err = err_time_out }
  await_get args (kv ∷ later) =
      let rest = await_get args later in
      if committed kv args.id then found (lookup args.key kv.kv_map) else rest

  -- The wait of `PutAppend`.
  unfoldable pub await_put_append : PutAppendArgs → List (KvServer D B) → PutAppendReply
  unfolding committed
  await_put_append args [] = record { err = err_time_out }
  await_put_append args (kv ∷ later) =
      let rest = await_put_append args later in
      if committed kv args.id then record { err = Err.ok } else rest

module _ {D B : Type 0} (g : Labgob Command D B) where
  -- `Get` as a whole: it is called in the state `kv`, and finds the states `later` while it waits.
  unfoldable pub answer_get : GetArgs → KvServer D B → List (KvServer D B) → Result GetReply
  unfolding get await_get
  answer_get args kv later = elim (get g args kv) [
    | panic ↦ panic
    | ok (some reply, _) ↦ ok reply
    | ok (none, _) ↦ ok (await_get args later)
  ]
