-- ===== src/Tests/Kv.antt =====
-- A server of src/kvraft/server.go that takes a put and a get from its log.
use cosi300a.Prelude.{
  ◌++◌, ◌≡◌, ◌⊎◌, refl, true, false, none, some, ok, List, [], ◌∷◌, String, minus_one, map, lookup,
  insert, All, string_key,
}
use cosi300a.Raft.Types.{ApplyMsg, Interface, is_leader}
use cosi300a.Kvraft.Types.{Err, err_no_key, err_wrong_leader, GetReply}
use cosi300a.Kvraft.Server.{check_apply_command, apply_all, committed}
use cosi300a.Kvraft.Requests.{await_get, get, not_committed, get_of, answer_get, put_append_of}
use cosi300a.Kvraft.Clerk
use cosi300a.Kvraft.Answers.{await_answer_lem}
use cosi300a.Kvraft.Clerk.{Call, await_answer, get_answer, Clerk, make_clerk, put}
use cosi300a.Kvraft.Once.{apply_twice}
use cosi300a.Kvraft.Refine.{value_at, model_run, fresh, seen_by, to_message}
use cosi300a.Kvraft.Serve.{IsKnown, serves_model}
use cosi300a.Kvraft.CatchUp.{Agrees, catches_up}
use cosi300a.Kvraft.Replies.{Answered, answer_get_sound, get-not_leader, put_then_get}
use cosi300a.Tests.KvServers.{
  Blob, snapshots, snapshots-IsFaithful, Server, gob, clerk, empty, put_x, get_x, has_x, answered_x,
  log, puts, runs, encoded,
}

abbrev reply : GetReply
reply = record { value = "1"; err = Err.ok }

replies : answer_get gob get_x answered_x (has_x ∷ answered_x ∷ []) ≡ ok reply
unfolding answer_get await_get get not_committed lookup
replies = refl

new : not_committed has_x get_x.id ≡ true
unfolding not_committed lookup
new = refl

new_put : committed empty (put clerk "x" "1").0.id ≡ false
unfolding committed Clerk.put_append lookup
new_put = refl

hands_in : put_append_of (put clerk "x" "1").0 ≡ ok put_x
unfolding put_append_of Clerk.put_append
hands_in = refl

second :
    check_apply_command gob snapshots
      (ApplyMsg.entry (Interface.command (get_of (Clerk.get (put clerk "x" "1").1 "x").0)) 3 1)
      has_x
    ≡ ok (none, answered_x)
unfolding check_apply_command Clerk.get Clerk.put_append lookup insert
second = refl

apply_twice_example :
    check_apply_command gob snapshots (to_message (put_x, 2, 1)) has_x ≡ ok (none, has_x)
apply_twice_example = apply_twice gob snapshots put_x 1 1 2 1 empty has_x none puts

known : All IsKnown log
known = ((λ e. cc), ((λ e. cc), ((λ e. cc), tt)))

serves_model_example :
    (after : Server) × (apply_all gob snapshots (map to_message log) empty ≡ ok after)
    × ((key : String)
        → value_at after.kv_map key
          ≡ model_run key (fresh (seen_by empty) (map (λ e. e.0) log)) (value_at empty.kv_map key))
serves_model_example = serves_model gob snapshots snapshots-IsFaithful log empty known

catches_up_example :
    (after : Server) × (apply_all gob snapshots
        (ApplyMsg.snapshot
            (Blob.blob (record { kv_map = []; last_committed_command_count = [] }))
            minus_one
            minus_one
          ∷ map to_message log)
        has_x
      ≡ ok after)
    × Agrees answered_x after
catches_up_example =
    catches_up gob snapshots snapshots-IsFaithful empty answered_x has_x
      (Blob.blob (record { kv_map = []; last_committed_command_count = [] })) minus_one minus_one
      (map to_message log) encoded runs

answer_get_sound_example :
    ((reply.err ≡ err_wrong_leader)
      × (committed answered_x get_x.id ≡ false)
      × (is_leader answered_x.rf.state ≡ false))
    ⊎ Answered get_x (has_x ∷ answered_x ∷ []) reply
answer_get_sound_example =
    answer_get_sound gob get_x answered_x (has_x ∷ answered_x ∷ []) reply replies

get-not_leader_example :
    get gob get_x has_x ≡ ok (some (record { value = ""; err = err_wrong_leader }), has_x)
get-not_leader_example = get-not_leader gob get_x has_x new refl

put_then_get_example :
    await_get (Clerk.get (put clerk "x" "1").1 "x").0 (answered_x ∷ [])
    ≡ record { value = "1"; err = Err.ok }
put_then_get_example =
    put_then_get gob snapshots clerk "x" "1" 1 1 3 1 empty has_x answered_x [] none none put_x
      hands_in new_put puts second

abbrev calls : List (Call GetReply)
calls = (0, none) ∷ (2, some (record { value = ""; err = err_wrong_leader })) ∷ (1, some reply) ∷ []

answers : await_answer calls ≡ some ("1", 1)
unfolding await_answer
answers = refl

await_answer_lem_example :
    (before after : List (Call GetReply)) × (r : GetReply) × (calls ≡ before ++ (1, some r) ∷ after)
    × (r.value ≡ "1")
    × ((r.err ≡ Err.ok) ⊎ (r.err ≡ err_no_key))
    × All (λ call. get_answer call.1 ≡ none) before
await_answer_lem_example = await_answer_lem calls "1" 1 answers
