-- ===== src/Shardmaster/Leave.antt =====
-- `Leave` of src/shardmaster/server.go: who owns the shards afterwards.
use cosi300a.Prelude.{
  ℕ, ◌+◌, ◌*◌, ◌/◌, ◌≡◌, ◌≢◌, ◌<◌, ◌≤◌, inl, inr, ap, ◌∙◌, none, some, List, [], ◌∷◌, arith, ok,
  Result-cases, length, get_elem?, lookup, delete, lookup-delete, sort_ints, Among, get_elem?-Among,
  sort_ints-Among, nat_key,
}
use cosi300a.Shardmaster.Types.{Groups}
use cosi300a.Shardmaster.Shards.{
  Assignment, handle_leave, delete_groups, redistribute_shard, gids_of, publish, generate_config,
  add_new_config,
}
use cosi300a.Shardmaster.Served.{Serves, redistribute_shard-Serves}

Among-lookup : (gid : ℕ) (groups : Groups) → Among gid (gids_of groups) → lookup gid groups ≢ none
unfolding lookup
Among-lookup gid [] h = λ e. elim h [ ]
Among-lookup gid ((k, v) ∷ rest) h = ground (arith, h, Among-lookup gid rest)

Serves-lookup :
    (gid : ℕ) (groups : Groups) → Serves (sort_ints (gids_of groups)) gid → lookup gid groups ≢ none
Serves-lookup gid groups (q, lt, e) =
    Among-lookup gid groups
      (sort_ints-Among gid (gids_of groups) (get_elem?-Among gid q (sort_ints (gids_of groups)) e))

delete_groups-keeps_none :
    (gid : ℕ) (groups : Groups) (gone : List ℕ)
    → lookup gid groups ≡ none
    → lookup gid (delete_groups groups gone) ≡ none
unfolding delete_groups
delete_groups-keeps_none gid groups [] e = e
delete_groups-keeps_none gid groups (k ∷ gone) e =
    delete_groups-keeps_none gid (delete k groups) gone
      (ground (arith, lookup-delete k gid groups, e))

delete_groups-gone :
    (gid : ℕ) (groups : Groups) (gone : List ℕ)
    → Among gid gone
    → lookup gid (delete_groups groups gone) ≡ none
unfolding delete_groups
delete_groups-gone gid groups [] h = elim h [ ]
delete_groups-gone gid groups (k ∷ gone) (inl same) =
    delete_groups-keeps_none gid (delete k groups) gone
      (ground (arith, lookup-delete k gid groups, same))
delete_groups-gone gid groups (k ∷ gone) (inr later) =
    delete_groups-gone gid (delete k groups) gone later

-- Publishing leaves the shards and the groups as they are.
publish-assigns :
    (a a' : Assignment) → publish a ≡ ok a' → (a'.shards ≡ a.shards) × (a'.group_map ≡ a.group_map)
unfolding add_new_config
publish-assigns a a' e =
    Result-cases (generate_config a) (λ c made. ground (arith, e, made)) (λ p. ground (arith, e, p))

-- After a leave without a panic, where the groups that stay divide the shards with at most one left
-- over, every shard belongs to a group that is known and has not left.
pub handle_leave-Serves :
    (gone : List ℕ) (a a' : Assignment)
    → 0 < length (delete_groups a.group_map gone)
    → length a.shards
      ≤ length (delete_groups a.group_map gone)
          * (length a.shards / length (delete_groups a.group_map gone))
        + 1
    → handle_leave gone a ≡ ok a'
    → (j : ℕ) → j < length a.shards
    → (gid : ℕ) × (get_elem? a'.shards j ≡ some gid)
      × (lookup gid a'.group_map ≢ none)
      × ¬ Among gid gone
unfolding handle_leave
handle_leave-Serves gone a a' some_left fits e j lt =
    Result-cases (redistribute_shard groups a.shards)
      (λ dealt ed.
        let next : Assignment = record a { group_map = groups; shards = dealt } in
        let (shards, map) = publish-assigns next a' (ground (arith, e, ed)) in
        let (gid, at, serves) =
          redistribute_shard-Serves groups a.shards dealt some_left fits ed j lt in
        let known = Serves-lookup gid groups serves in
        (
          gid,
          ap (λ xs. get_elem? xs j) shards ∙ at,
          rw map known,
          λ left. known (delete_groups-gone gid a.group_map gone left),
        ))
      (λ p. ground (arith, e, p))
  where
    groups : Groups
    groups = delete_groups a.group_map gone
