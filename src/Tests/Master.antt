-- ===== src/Tests/Master.antt =====
-- The assignment of src/shardmaster/server.go with three groups.
use cosi300a.Prelude.{
  map, Among, ◌≢◌, ℕ, ◌≡◌, ◌+◌, ◌-◌, ◌*◌, ◌/◌, ◌≤◌, ◌<◌, refl, Bool, true, false, Option, none,
  some, ok, List, [], ◌∷◌, String, ℤ, minus_one, pos, arith, length, get_elem?, sort_ints, lookup,
  replicate, Distinct, nat_key,
}
use mathlib.Core.List.{Permᴰ}
use cosi300a.Shardmaster.Types.{Groups, Config, Args, join_args, join_command, copy_group_map}
use cosi300a.Shardmaster.Shards.{
  handle_leave, delete_groups, Assignment, redistribute_shard, handle_query, gids_of,
}
use cosi300a.Shardmaster.Server.{run_command}
use cosi300a.Shardmaster.Deal.{IsRedistributed, redistribute_shard_lem}
use cosi300a.Shardmaster.Served.{Serves, redistribute_shard-Serves}
use cosi300a.Shardmaster.Order.{redistribute_shard-Perm}
use cosi300a.Shardmaster.Configs.{handle_query_lem}
use cosi300a.Shardmaster.History.{IsCurrent}
use cosi300a.Shardmaster.Leave.{handle_leave-Serves}

abbrev three : Groups
three = (3, "c" ∷ []) ∷ (1, "a" ∷ []) ∷ (2, "b" ∷ []) ∷ []

abbrev rotated : Groups
rotated = (1, "a" ∷ []) ∷ (3, "c" ∷ []) ∷ (2, "b" ∷ []) ∷ []

abbrev unassigned : List ℕ
unassigned = replicate 10 0

abbrev dealt : List ℕ
dealt = 1 ∷ 1 ∷ 1 ∷ 2 ∷ 2 ∷ 2 ∷ 3 ∷ 3 ∷ 3 ∷ 3 ∷ []

three-Distinct : Distinct three
unfolding lookup
three-Distinct = (refl, (refl, (refl, tt)))

deals : redistribute_shard three unassigned ≡ ok dealt
unfolding redistribute_shard sort_ints
deals = refl

redistribute_shard_lem_example :
    (after : List ℕ) × (redistribute_shard three unassigned ≡ ok after)
    × IsRedistributed (sort_ints (gids_of three)) unassigned after
redistribute_shard_lem_example = redistribute_shard_lem three unassigned (omega arith) (omega arith)

redistribute_shard-Serves_example :
    (gid : ℕ) × (get_elem? dealt 4 ≡ some gid) × Serves (sort_ints (gids_of three)) gid
redistribute_shard-Serves_example =
    redistribute_shard-Serves three unassigned dealt (omega arith) (omega arith) deals 4
      (omega arith)

redistribute_shard-Perm_example :
    redistribute_shard three unassigned ≡ redistribute_shard rotated unassigned
redistribute_shard-Perm_example =
    redistribute_shard-Perm three rotated unassigned ∣ Permᴰ.swap refl refl ∣₁

abbrev first_config : Config
first_config = record { num = 0; shards = unassigned; groups = [] }

abbrev pub start : Assignment
start = record { configs = first_config ∷ []; group_map = []; shards = unassigned }

abbrev second_config : Config
second_config = record { num = 1; shards = dealt; groups = three }

abbrev pub joined : Assignment
joined = record { configs = first_config ∷ second_config ∷ []; group_map = three; shards = dealt }

abbrev pub join : Args
join = join_args (record { id = record { clerk_id = "ann"; command = 0 }; servers = three })

pub joins : run_command join_command join start ≡ ok joined
unfolding run_command lookup cosi300a.Prelude.insert sort_ints copy_group_map
joins = refl

start-IsCurrent : IsCurrent start
start-IsCurrent = record {
  numbered = (refl, tt);
  nonempty = omega arith;
  distinct = tt;
  latest = first_config;
  is_latest = refl;
  shards = refl;
  groups = λ gid. refl;
}

handle_query_lem_example :
    (c : Config) × (handle_query (pos 7) joined.configs ≡ ok c)
    × (get_elem? joined.configs 1 ≡ some c)
    × (c.num ≡ 1)
handle_query_lem_example = handle_query_lem (pos 7) joined.configs (refl, (refl, tt)) (omega arith)

abbrev left_shards : List ℕ
left_shards = 1 ∷ 1 ∷ 1 ∷ 1 ∷ 1 ∷ 3 ∷ 3 ∷ 3 ∷ 3 ∷ 3 ∷ []

abbrev two : Groups
two = (3, "c" ∷ []) ∷ (1, "a" ∷ []) ∷ []

abbrev third_config : Config
third_config = record { num = 2; shards = left_shards; groups = two }

abbrev pub left : Assignment
left = record {
  configs = first_config ∷ second_config ∷ third_config ∷ [];
  group_map = two;
  shards = left_shards;
}

leaves : handle_leave (2 ∷ []) joined ≡ ok left
unfolding handle_leave cosi300a.Prelude.delete sort_ints copy_group_map cosi300a.Prelude.insert
leaves = refl

some_left : 0 < length (delete_groups three (2 ∷ []))
unfolding delete_groups cosi300a.Prelude.delete
some_left = omega arith

fits :
    length dealt
    ≤ length (delete_groups three (2 ∷ [])) * (length dealt / length (delete_groups three (2 ∷ [])))
      + 1
unfolding delete_groups cosi300a.Prelude.delete
fits = omega arith

handle_leave-Serves_example :
    (gid : ℕ) × (get_elem? left_shards 4 ≡ some gid)
    × (lookup gid two ≢ none)
    × ¬ Among gid (2 ∷ [])
handle_leave-Serves_example =
    handle_leave-Serves (2 ∷ []) joined left some_left fits leaves 4 (omega arith)
