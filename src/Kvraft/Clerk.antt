-- ===== src/Kvraft/Clerk.antt =====
-- src/kvraft/client.go. One thread for each server calls until one of them has an answer; a call that
-- returns is an event, in the order in which they return.
use cosi300a.Prelude.{
  ℕ, ◌+◌, Bool, true, false, Option, none, some, List, [], ◌∷◌, String, if◌then◌else◌,
}
use cosi300a.Kvraft.Types.{
  Err, err_no_key, CommandId, GetArgs, GetReply, PutAppendArgs, PutAppendReply,
}

pub record Clerk : Type 0 where
  pub servers : ℕ
  pub next_command_id : ℕ
  pub me : String

-- `uuid.New()` gives `me`.
abbrev pub make_clerk : ℕ → String → Clerk
make_clerk servers me = record { servers = servers; next_command_id = 0; me = me }

unfoldable pub get_current_id : Clerk → CommandId × Clerk
get_current_id ck = (
  record { clerk_id = ck.me; command = ck.next_command_id },
  record ck { next_command_id = ck.next_command_id + 1 },
)

-- `reply.Err == OK || reply.Err == ErrNoKey`, and `reply.Err == OK`.
abbrev answers : Err → Bool
answers Err.ok = true
answers err_no_key = true
answers _ = false

abbrev succeeds : Err → Bool
succeeds Err.ok = true
succeeds _ = false

-- A call of a server that returned: `none` where the network lost it.
abbrev pub Call : Type 0 → Type 0
Call R = ℕ × Option R

abbrev pub get_answer : Option GetReply → Option String
get_answer none = none
get_answer (some reply) = if answers reply.err then some reply.value else none

-- The result and the server that gave it; `none` while no call has succeeded. The first success
-- swaps `count`, and later ones find it swapped.
unfoldable pub await_answer : List (Call GetReply) → Option (String × ℕ)
await_answer [] = none
await_answer ((j, reply) ∷ calls) =
    let rest = await_answer calls in
    elim (get_answer reply) [ some value ↦ some (value, j) | none ↦ rest ]

unfoldable pub get : Clerk → String → GetArgs × Clerk
unfolding get_current_id
get ck key = let (id, ck') = get_current_id ck in (record { id = id; key = key }, ck')

abbrev pub put_succeeds : Option PutAppendReply → Bool
put_succeeds none = false
put_succeeds (some reply) = succeeds reply.err

unfoldable pub await_success : List (Call PutAppendReply) → Option ℕ
await_success [] = none
await_success ((j, reply) ∷ calls) =
    let rest = await_success calls in if put_succeeds reply then some j else rest

unfoldable pub put_append : Clerk → String → String → String → PutAppendArgs × Clerk
unfolding get_current_id
put_append ck key value op =
    let (id, ck') = get_current_id ck in
    (record { id = id; key = key; value = value; op = op }, ck')

abbrev pub put : Clerk → String → String → PutAppendArgs × Clerk
put ck key value = put_append ck key value "Put"

abbrev pub append : Clerk → String → String → PutAppendArgs × Clerk
append ck key value = put_append ck key value "Append"
