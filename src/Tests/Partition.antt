-- ===== src/Tests/Partition.antt =====
-- The model of src/models/kv.go on a history of three operations.
use cosi300a.Prelude.{ℕ, ◌≡◌, refl, String, List, [], ◌∷◌, map, Ascends, occurrences}
use cosi300a.Kvraft.Model.{KvInput, describe_operation}
use cosi300a.Kvraft.Partition.{partition, partition_keys, with_key, groups, partition_lem}

abbrev put_y : KvInput
put_y = record { op = 1; key = "y"; value = "1" }

abbrev put_x : KvInput
put_x = record { op = 1; key = "x"; value = "2" }

abbrev get_y : KvInput
get_y = record { op = 0; key = "y"; value = "" }

abbrev history : List KvInput
history = put_y ∷ put_x ∷ get_y ∷ []

abbrev operation : KvInput → KvInput
operation v = v

splits : partition operation history ≡ (put_x ∷ []) ∷ (put_y ∷ get_y ∷ []) ∷ []
unfolding partition cosi300a.Prelude.sort_strings cosi300a.Kvraft.Partition.group
    cosi300a.Prelude.insert cosi300a.Prelude.lookup
splits = refl

describes : describe_operation get_y (record { value = "1" }) ≡ "get('y') -> '1'"
unfolding describe_operation
describes = refl

partition_lem_example :
    (partition operation history
      ≡ map (λ k. with_key operation k history) (partition_keys operation history))
    × (occurrences "y" (partition_keys operation history) ≡ groups (with_key operation "y" history))
    × Ascends (partition_keys operation history)
partition_lem_example = partition_lem operation history "y"
