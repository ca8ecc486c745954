-- ===== src/Shardmaster/Shards.antt =====
-- src/shardmaster/server.go: how the shards are dealt out to the groups, and the handlers of the four
-- commands, on the parts of the state that they use.
use cosi300a.Prelude.{
  ℕ, zero, suc, ◌+◌, ◌-◌, ◌/◌, ◌||◌, none, some, List, [], ◌∷◌, ◌++◌, ℤ, pos, pos_part, ltb_ℤ,
  Result, ok, panic, or_panic, if◌then◌else◌, nat_eq, length, map, replicate, last?, lookup, insert,
  delete, sort_ints, nat_key,
}
use cosi300a.Raft.Log.{at, assign, ◌>>=◌}
use cosi300a.Shardmaster.Types.{Groups, Config, copy_group_map}

-- What the commands read and change.
pub record Assignment : Type 0 where
  pub configs : List Config
  pub group_map : Groups
  pub shards : List ℕ

-- `for j := 0; j < shardPerGroup; j++ { sm.shards[i] = gid; i += 1 }`, the rounds left given: the
-- shards and `i` at the end.
unfoldable pub deal_group : ℕ → ℕ → ℕ → List ℕ → Result (List ℕ × ℕ)
deal_group zero gid i shards = ok (shards, i)
deal_group (suc n) gid i shards = do dealt ← assign shards i gid; deal_group n gid (i + 1) dealt

-- The loop over the sorted keys: the shards and `lastGid` at the end.
unfoldable pub deal : ℕ → List ℕ → ℕ → ℕ → List ℕ → Result (List ℕ × ℕ)
unfolding deal_group
deal per [] i last_gid shards = ok (shards, last_gid)
deal per (gid ∷ keys) i last_gid shards = do
  (dealt, next) ← deal_group per gid i shards
  deal per keys next gid dealt

abbrev pub gids_of : Groups → List ℕ
gids_of groups = map (λ entry. entry.0) groups

-- With no group all shards go to group 0.
unfoldable pub redistribute_shard : Groups → List ℕ → Result (List ℕ)
unfolding deal
redistribute_shard group_map shards =
    if nat_eq (length group_map) 0 then ok (replicate (length shards) 0) else (do
      (dealt, last_gid) ←
          deal (length shards / length group_map) (sort_ints (gids_of group_map)) 0 0 shards
      assign dealt (length dealt - 1) last_gid)

unfoldable pub get_last_config_number : List Config → Result ℕ
get_last_config_number configs = do config ← or_panic (last? configs); ok config.num

unfoldable pub get_config_at_n : List Config → ℕ → Result Config
get_config_at_n configs n = at configs n

-- The shards are copied one by one into a new array.
unfoldable pub generate_config : Assignment → Result Config
unfolding get_last_config_number
generate_config a = do
  last ← get_last_config_number a.configs
  ok (record { num = last + 1; shards = a.shards; groups = copy_group_map a.group_map })

unfoldable pub add_new_config : Config → Assignment → Assignment
add_new_config config a = record a { configs = a.configs ++ config ∷ [] }

-- The end of every handler that changes the assignment.
abbrev pub publish : Assignment → Result Assignment
publish a = do config ← generate_config a; ok (add_new_config config a)

-- `redistributeShard`, `generateConfig` and `addNewConfig`.
abbrev pub rebalance : Assignment → Result Assignment
rebalance a = do
  dealt ← redistribute_shard a.group_map a.shards
  publish (record a { shards = dealt })

-- A group that is known already panics.
unfoldable pub add_groups : Groups → Groups → Result Groups
add_groups group_map [] = ok group_map
add_groups group_map ((gid, servers) ∷ rest) =
    let more = add_groups (insert gid servers group_map) rest in
    elim (lookup gid group_map) [ some _ ↦ panic | none ↦ more ]

unfoldable pub handle_join : Groups → Assignment → Result Assignment
unfolding add_groups redistribute_shard generate_config add_new_config
handle_join new_servers a = do
  groups ← add_groups a.group_map new_servers
  rebalance (record a { group_map = groups })

unfoldable pub delete_groups : Groups → List ℕ → Groups
delete_groups group_map [] = group_map
delete_groups group_map (gid ∷ rest) = delete_groups (delete gid group_map) rest

unfoldable pub handle_leave : List ℕ → Assignment → Result Assignment
unfolding delete_groups redistribute_shard generate_config add_new_config
handle_leave leave_gid a = rebalance (record a { group_map = delete_groups a.group_map leave_gid })

unfoldable pub handle_query : ℤ → List Config → Result Config
unfolding get_last_config_number get_config_at_n
handle_query n configs = do
  last ← get_last_config_number configs
  if ltb_ℤ n (pos 0) || ltb_ℤ (pos last) n
      then get_config_at_n configs last
      else get_config_at_n configs (pos_part n)

unfoldable pub handle_move : ℕ → ℕ → Assignment → Result Assignment
unfolding generate_config add_new_config
handle_move shard_n gid a = elim (lookup gid a.group_map) [
  | none ↦ panic
  | some _ ↦ (do moved ← assign a.shards shard_n gid; publish (record a { shards = moved }))
]
