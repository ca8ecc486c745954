-- ===== src/Kvraft/Replies.antt =====
-- src/kvraft/server.go and client.go: what a client is answered.
use cosi300a.Prelude.{
  ℕ, ◌≡◌, ◌⊎◌, ◌↔◌, ap, subst, true, false, Option, none, some, List, [], ◌∷◌, arith, ok, String,
  string_key, lookup, insert, lookup-insert, All,
}
use text.Mathlib.TextEquality.{eq_iff}
use cosi300a.Raft.Types.{ApplyMsg, Interface, Labgob, is_leader}
use cosi300a.Raft.Node
use cosi300a.Kvraft.Types.{
  Command, CommandId, put_command, Err, no_err, err_no_key, err_time_out, err_wrong_leader,
  KvServer, SnapshotGob, GetArgs, GetReply,
}
use cosi300a.Kvraft.Server.{check_apply_command, committed, run_command}
use cosi300a.Kvraft.Requests.{not_committed, await_get, get, get_of, answer_get, put_append_of}
use cosi300a.Kvraft.Clerk
use cosi300a.Kvraft.Clerk.{Clerk, put}
use cosi300a.Kvraft.Refine.{apply-new}
use cosi300a.Kvraft.Once.{apply_commits}

module _ {D B : Type 0} where
  -- The two tests for a duplicate agree.
  pub not_committed-committed :
      (kv : KvServer D B) (id : CommandId)
      → (not_committed kv id ≡ false) ↔ (committed kv id ≡ true)
  unfolding not_committed committed
  not_committed-committed kv id = ground arith

  -- Some state in the list satisfies a predicate.
  abbrev pub Some : (KvServer D B → Type 0) → List (KvServer D B) → Type 0
  Some P [] = ⊥
  Some P (kv ∷ later) = P kv ⊎ Some P later

  -- What the wait of a `Get` answers from the states that it finds: it gives up where none of them
  -- has the command, and otherwise answers from one that has it.
  abbrev pub Answered : GetArgs → List (KvServer D B) → GetReply → Type 0
  Answered args later reply =
      ((reply.err ≡ err_time_out) × All (λ kv. committed kv args.id ≡ false) later)
      ⊎ Some
          (λ kv.
            (committed kv args.id ≡ true)
            × (((reply.err ≡ Err.ok) × (lookup args.key kv.kv_map ≡ some reply.value))
                ⊎ ((reply.err ≡ err_no_key) × (lookup args.key kv.kv_map ≡ none))))
          later

  await_get-Answered :
      (args : GetArgs) (later : List (KvServer D B)) → Answered args later (await_get args later)
  unfolding await_get
  await_get-Answered args [] = ground arith
  await_get-Answered args (kv ∷ later) = ground (arith, await_get-Answered args later)

module _ {D B : Type 0} (g : Labgob Command D B) where
  -- A server that is not the leader refuses a new command and changes nothing.
  pub get-not_leader :
      (args : GetArgs) (kv : KvServer D B)
      → not_committed kv args.id ≡ true
      → is_leader kv.rf.state ≡ false
      → get g args kv ≡ ok (some (record { value = ""; err = err_wrong_leader }), kv)
  unfolding get Node.start
  get-not_leader args kv n l = ground arith

  -- A `Get` that is answered, at once or when its wait is over, is answered in one of three ways:
  -- with the wrong leader, where the server had not taken its command and its peer does not lead;
  -- with a timeout, where none of the states that it finds while it waits has its command; or from
  -- one of these states that has it: a value is the key's in that state, and a missing key is
  -- missing there.
  pub answer_get_sound :
      (args : GetArgs) (kv : KvServer D B) (later : List (KvServer D B)) (reply : GetReply)
      → answer_get g args kv later ≡ ok reply
      → ((reply.err ≡ err_wrong_leader)
          × (committed kv args.id ≡ false)
          × (is_leader kv.rf.state ≡ false))
        ⊎ Answered args later reply
  unfolding answer_get get Node.start
  answer_get_sound args kv later reply e =
      ground (arith, e, not_committed-committed kv args.id, await_get-Answered args later)

module _ {D B : Type 0} (g : Labgob Command D B) (h : SnapshotGob D) where
  -- The same command, with its type.
  abbrev put_of : Clerk → String → String → Command
  put_of ck key value = record {
    id = record { clerk_id = ck.me; command = ck.next_command_id };
    result = "";
    type = put_command;
    key = key;
    value = value;
    error = no_err;
  }

  put_append_of-put :
      (ck : Clerk) (key value : String) (c : Command)
      → put_append_of (put ck key value).0 ≡ ok c
      → c ≡ put_of ck key value
  unfolding put_append_of Clerk.put_append
  put_append_of-put ck key value c e = ground (arith, e)

  -- A clerk calls put with a value, in a command that is new to the server, and then gets the key.
  -- Where the server takes the command that `PutAppend` builds from the clerk's arguments, and then
  -- the command of the get, from its log, the answer to the get is the value that was put.
  pub put_then_get :
      (ck : Clerk) (key value : String) (i t j u : ℕ) (kv kv1 kv2 : KvServer D B)
      (later : List (KvServer D B)) (s1 s2 : Option (ℕ × ℕ × D)) (c : Command)
      → put_append_of (put ck key value).0 ≡ ok c
      → committed kv (put ck key value).0.id ≡ false
      → check_apply_command g h (ApplyMsg.entry (Interface.command c) i t) kv ≡ ok (s1, kv1)
      → check_apply_command g h
          (ApplyMsg.entry (Interface.command (get_of (Clerk.get (put ck key value).1 key).0)) j u)
          kv1
        ≡ ok (s2, kv2)
      → await_get (Clerk.get (put ck key value).1 key).0 (kv2 ∷ later)
        ≡ record { value = value; err = Err.ok }
  unfolding await_get committed run_command Clerk.get Clerk.put_append
  put_then_get ck key value i t j u kv kv1 kv2 later s1 s2 c made new e1 e2 =
      let c1 = put_of ck key value in
      let took : check_apply_command g h (ApplyMsg.entry (Interface.command c1) i t) kv
          ≡ ok (s1, kv1) =
        subst
          (λ d.
            check_apply_command g h (ApplyMsg.entry (Interface.command d) i t) kv ≡ ok (s1, kv1))
          (put_append_of-put ck key value c made) e1 in
      let c2 = get_of (Clerk.get (put ck key value).1 key).0 in
      let (r1, n1) = apply-new g h c1 i t kv kv1 s1 took new in
      let stored : kv1.kv_map ≡ insert key value kv.kv_map = ground (arith, r1) in
      let fresh : committed kv1 c2.id ≡ false = ground (
        arith,
        n1,
        eq_iff ck.me ck.me,
        lookup-insert ck.me ck.me ck.next_command_id kv.last_committed_command_count,
      ) in
      let (r2, n2) = apply-new g h c2 j u kv1 kv2 s2 e2 fresh in
      let kept : kv2.kv_map ≡ kv1.kv_map = ground (arith, r2) in
      let done : committed kv2 c2.id ≡ true = apply_commits g h c2 j u kv1 kv2 s2 e2 in
      ground (
        arith,
        done,
        kept,
        stored,
        ap (lookup key) kept,
        ap (lookup key) stored,
        lookup-insert key key value kv.kv_map,
        eq_iff key key,
      )
