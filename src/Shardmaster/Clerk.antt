-- ===== src/Shardmaster/Clerk.antt =====
-- src/shardmaster/client.go. One thread for each server calls until one of them succeeds; a call that
-- returns is an event, in the order in which they return.
use cosi300a.Prelude.{
  ℕ, ◌+◌, Bool, true, false, Option, none, some, List, [], ◌∷◌, String, ℤ, if◌then◌else◌, replicate,
}
use cosi300a.Shardmaster.Types.{
  CommandId, Err, Groups, JoinArgs, LeaveArgs, MoveArgs, QueryArgs, copy_group_map,
}

pub record Clerk : Type 0 where
  pub servers : ℕ
  pub next_command_n : ℕ
  pub me : String

-- `uuid.New()` gives `me`.
abbrev pub make_clerk : ℕ → String → Clerk
make_clerk servers me = record { servers = servers; next_command_n = 0; me = me }

unfoldable pub get_current_id : Clerk → CommandId × Clerk
get_current_id ck = (
  record { clerk_id = ck.me; command = ck.next_command_n },
  record ck { next_command_n = ck.next_command_n + 1 },
)

abbrev pub is_ok : Err → Bool
is_ok Err.ok = true
is_ok _ = false

-- `concurrentCall`: the server whose call succeeds first and its reply. `none` is a lost call.
unfoldable pub concurrent_call : {R : Type 0} → (R → Err) → List (ℕ × Option R) → Option (ℕ × R)
concurrent_call get_err [] = none
concurrent_call get_err ((j, none) ∷ calls) = concurrent_call get_err calls
concurrent_call get_err ((j, some reply) ∷ calls) =
    let rest = concurrent_call get_err calls in
    if is_ok (get_err reply) then some (j, reply) else rest

-- The arguments that each server is sent.
unfoldable pub query : Clerk → ℤ → List QueryArgs × Clerk
unfolding get_current_id
query ck num =
    let (id, ck') = get_current_id ck in (replicate ck.servers (record { id = id; num = num }), ck')

unfoldable pub join : Clerk → Groups → List JoinArgs × Clerk
unfolding get_current_id
join ck servers =
    let (id, ck') = get_current_id ck in
    (replicate ck.servers (record { id = id; servers = copy_group_map servers }), ck')

unfoldable pub leave : Clerk → List ℕ → List LeaveArgs × Clerk
unfolding get_current_id
leave ck gids =
    let (id, ck') = get_current_id ck in
    (replicate ck.servers (record { id = id; gids = gids }), ck')

unfoldable pub move : Clerk → ℕ → ℕ → List MoveArgs × Clerk
unfolding get_current_id
move ck shard gid =
    let (id, ck') = get_current_id ck in
    (replicate ck.servers (record { id = id; shard = shard; gid = gid }), ck')
