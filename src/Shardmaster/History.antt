-- ===== src/Shardmaster/History.antt =====
-- src/shardmaster/server.go: what the commands leave of the state, and of the history.
use cosi300a.Prelude.{
  ℕ, zero, suc, ◌+◌, ◌<◌, ◌≡◌, refl, ap, sym, ◌∙◌, some, List, [], ◌∷◌, ◌++◌, arith, ok,
  length-append, length, get_elem?, last?, lookup, insert, delete, Distinct, insert-Distinct,
  delete-Distinct, Result-cases, nat_key, Option-cases, inl, inr,
}
use cosi300a.Raft.Log.{assign}
use cosi300a.Shardmaster.Types.{
  Groups, Config, copy_group_map, CommandType, Args, move_command, join_command, leave_command,
  query_command, unknown_command, join_args, leave_args, move_args, query_args,
}
use cosi300a.Shardmaster.Shards.{
  Assignment, handle_join, handle_leave, handle_move, redistribute_shard, add_groups, delete_groups,
  generate_config, add_new_config, rebalance, publish,
}
use cosi300a.Shardmaster.Server.{run_command}
use cosi300a.Shardmaster.Configs.{
  NumberedFrom, NumberedFrom-append, NumberedFrom-last, last?-append, lookup-copy_group_map,
}

-- The configurations are numbered from 0, and the latest one is the state's assignment.
pub record IsCurrent (a : Assignment) : Type 0 where
  pub numbered : NumberedFrom 0 a.configs
  pub nonempty : 0 < length a.configs
  pub distinct : Distinct a.group_map
  pub latest : Config
  pub is_latest : last? a.configs ≡ some latest
  pub shards : latest.shards ≡ a.shards
  pub groups : (gid : ℕ) → lookup gid latest.groups ≡ lookup gid a.group_map

publish-new :
    (a : Assignment) (last : Config)
    → last? a.configs ≡ some last
    → publish a
      ≡ ok (record a {
        configs =
            a.configs
            ++ record { num = last.num + 1; shards = a.shards; groups = copy_group_map a.group_map }
              ∷ [];
      })
unfolding generate_config add_new_config
publish-new a last e = rw e refl

publish-IsCurrent :
    (a a' : Assignment)
    → NumberedFrom 0 a.configs
    → 0 < length a.configs
    → Distinct a.group_map
    → publish a ≡ ok a'
    → IsCurrent a' × ((c : Config) × (a'.configs ≡ a.configs ++ c ∷ []))
publish-IsCurrent a a' numbered lt distinct e =
    let (last, el, k) = NumberedFrom-last 0 a.configs numbered lt in
    let new : Config = record {
      num = last.num + 1;
      shards = a.shards;
      groups = copy_group_map a.group_map;
    } in
    let done : a' ≡ record a { configs = a.configs ++ new ∷ [] } =
      ground (arith, e, publish-new a last el) in
    rw done (
      record {
        numbered = NumberedFrom-append 0 a.configs new numbered (omega (arith, k));
        nonempty = omega (arith, length-append a.configs (new ∷ []));
        distinct = distinct;
        latest = new;
        is_latest = last?-append a.configs new;
        shards = refl;
        groups = λ gid. lookup-copy_group_map gid a.group_map distinct;
      },
      (new, refl),
    )

rebalance-IsCurrent :
    (a a' : Assignment)
    → NumberedFrom 0 a.configs
    → 0 < length a.configs
    → Distinct a.group_map
    → rebalance a ≡ ok a'
    → IsCurrent a' × ((c : Config) × (a'.configs ≡ a.configs ++ c ∷ []))
rebalance-IsCurrent a a' numbered lt distinct e =
    Result-cases (redistribute_shard a.group_map a.shards)
      (λ dealt ed.
        publish-IsCurrent (record a { shards = dealt }) a' numbered lt distinct
          (ground (arith, e, ed)))
      (λ ed. ground (arith, e, ed))

add_groups-Distinct :
    (groups added more : Groups)
    → Distinct groups
    → add_groups groups added ≡ ok more
    → Distinct more
unfolding add_groups
add_groups-Distinct groups [] more d e = ground (arith, e)
add_groups-Distinct groups ((gid, servers) ∷ rest) more d e =
    add_groups-Distinct (insert gid servers groups) rest more (insert-Distinct gid servers groups d)
      (ground (arith, e))

delete_groups-Distinct :
    (groups : Groups) (gone : List ℕ) → Distinct groups → Distinct (delete_groups groups gone)
unfolding delete_groups
delete_groups-Distinct groups [] d = d
delete_groups-Distinct groups (gid ∷ rest) d =
    delete_groups-Distinct (delete gid groups) rest (delete-Distinct gid groups d)

move-IsCurrent :
    (shard gid : ℕ) (a a' : Assignment)
    → IsCurrent a
    → handle_move shard gid a ≡ ok a'
    → IsCurrent a' × ((c : Config) × (a'.configs ≡ a.configs ++ c ∷ []))
unfolding handle_move
move-IsCurrent shard gid a a' h e = elim (Option-cases (lookup gid a.group_map)) [
  | inl unknown ↦ ground (arith, e, unknown)
  | inr (servers, known) ↦
      Result-cases (assign a.shards shard gid)
        (λ moved em.
          publish-IsCurrent (record a { shards = moved }) a' h.numbered h.nonempty h.distinct
            (ground (arith, e, known, em)))
        (λ ep. ground (arith, e, known, ep))
]

get-append :
    (xs : List Config) (c d : Config) (i : ℕ)
    → get_elem? xs i ≡ some d
    → get_elem? (xs ++ c ∷ []) i ≡ some d
get-append [] c d i e = cc
get-append (x ∷ xs) c d zero e = e
get-append (x ∷ xs) c d (suc i) e = get-append xs c d i e

extended :
    (a a' : Assignment)
    → IsCurrent a' × ((c : Config) × (a'.configs ≡ a.configs ++ c ∷ []))
    → IsCurrent a'
      × ((i : ℕ) (c : Config) → get_elem? a.configs i ≡ some c → get_elem? a'.configs i ≡ some c)
extended a a' (h, (new, e)) =
    (h, λ i c k. ap (λ cs. get_elem? cs i) e ∙ get-append a.configs new c i k)

-- A command that does not panic keeps the history of configurations: they are numbered from 0, the
-- latest one has the shards of the state and, for each group id, its servers, and no configuration
-- that was published changes or goes.
pub run_command-IsCurrent :
    (type : CommandType) (args : Args) (a a' : Assignment)
    → IsCurrent a
    → run_command type args a ≡ ok a'
    → IsCurrent a'
      × ((i : ℕ) (c : Config) → get_elem? a.configs i ≡ some c → get_elem? a'.configs i ≡ some c)
unfolding run_command handle_join handle_leave handle_move
run_command-IsCurrent join_command (join_args args) a a' h e =
    Result-cases (add_groups a.group_map args.servers)
      (λ more em. extended a a' (
        rebalance-IsCurrent (record a { group_map = more }) a' h.numbered h.nonempty
          (add_groups-Distinct a.group_map args.servers more h.distinct em)
          (ground (arith, e, em))))
      (λ ep. ground (arith, e, ep))
run_command-IsCurrent leave_command (leave_args args) a a' h e = extended a a' (
    rebalance-IsCurrent (record a { group_map = delete_groups a.group_map args.gids }) a' h.numbered
      h.nonempty (delete_groups-Distinct a.group_map args.gids h.distinct) e)
run_command-IsCurrent move_command (move_args args) a a' h e =
    extended a a' (move-IsCurrent args.shard args.gid a a' h e)
run_command-IsCurrent query_command args a a' h e =
    let same : a ≡ a' = ground arith in rw (sym same) (h, λ i c k. k)
run_command-IsCurrent move_command (join_args args) a a' h e = cc
run_command-IsCurrent move_command (leave_args args) a a' h e = cc
run_command-IsCurrent move_command (query_args args) a a' h e = cc
run_command-IsCurrent join_command (leave_args args) a a' h e = cc
run_command-IsCurrent join_command (move_args args) a a' h e = cc
run_command-IsCurrent join_command (query_args args) a a' h e = cc
run_command-IsCurrent leave_command (join_args args) a a' h e = cc
run_command-IsCurrent leave_command (move_args args) a a' h e = cc
run_command-IsCurrent leave_command (query_args args) a a' h e = cc
run_command-IsCurrent unknown_command args a a' h e = cc
