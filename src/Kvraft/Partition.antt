-- ===== src/Kvraft/Partition.antt =====
-- src/models/kv.go: `Partition`, which splits a history by key for the checker. `A` is porcupine's
-- type of operations, and `input` the assertion of an operation's input to `KvInput`.
use cosi300a.Prelude.{
  ℕ, ◌≡◌, refl, String, List, [], ◌∷◌, ◌++◌, map, append_assoc, Option, none, some, if◌then◌else◌,
  lookup, insert, lookup-insert, Distinct, insert-Distinct, string_key, ◌==◌, arith, ap, fun_ext,
  sort_strings, Ascends, sort_strings-Ascends, occurrences, occurrences-sort_strings,
}
use cosi300a.Kvraft.Model.{KvInput}

-- Go's `m[key]` on a map to slices.
abbrev pub slice_at : {A : Type 0} → String → List (String × List A) → List A
slice_at key m = elim (lookup key m) [ none ↦ [] | some ops ↦ ops ]

abbrev one_if_some : {V : Type 0} → Option V → ℕ
one_if_some none = 0
one_if_some (some v) = 1

module _ {A : Type 0} where
  joined : Option (List A) → List A → Option (List A)
  joined o [] = o
  joined none (v ∷ ops) = some (v ∷ ops)
  joined (some old) (v ∷ ops) = some (old ++ v ∷ ops)

  joined-snoc :
      (o : Option (List A)) (v : A) (ops : List A)
      → joined (some ((elim o [ none ↦ [] | some old ↦ old ]) ++ v ∷ [])) ops ≡ joined o (v ∷ ops)
  unfolding joined
  joined-snoc none v [] = refl
  joined-snoc none v (w ∷ ops) = refl
  joined-snoc (some old) v [] = refl
  joined-snoc (some old) v (w ∷ ops) = ap some (append_assoc old (v ∷ []) (w ∷ ops))

  -- The number of groups that operations on one key make.
  abbrev pub groups : List A → ℕ
  groups [] = 0
  groups (v ∷ ops) = 1

  slice-joined : (ops : List A) → (elim (joined none ops) [ none ↦ [] | some found ↦ found ]) ≡ ops
  unfolding joined
  slice-joined [] = refl
  slice-joined (v ∷ ops) = refl

  groups-joined : (ops : List A) → one_if_some (joined none ops) ≡ groups ops
  unfolding joined
  groups-joined [] = refl
  groups-joined (v ∷ ops) = refl

module _ {A : Type 0} (input : A → KvInput) where
  unfoldable pub group : List A → List (String × List A) → List (String × List A)
  group [] m = m
  group (v ∷ history) m =
      let key = (input v).key in group history (insert key (slice_at key m ++ v ∷ []) m)

  abbrev pub partition_keys : List A → List String
  partition_keys history = sort_strings (map (λ e. e.0) (group history []))

  unfoldable pub partition : List A → List (List A)
  partition history = map (λ k. slice_at k (group history [])) (partition_keys history)

  -- The operations of a history on one key, in their order.
  abbrev pub with_key : String → List A → List A
  with_key key [] = []
  with_key key (v ∷ history) =
      let rest = with_key key history in if (input v).key == key then v ∷ rest else rest

  lookup-group :
      (key : String) (history : List A) (m : List (String × List A))
      → lookup key (group history m) ≡ joined (lookup key m) (with_key key history)
  unfolding group joined
  lookup-group key [] m = refl
  lookup-group key (v ∷ history) m = ground (
    arith,
    lookup-group key history (insert (input v).key (slice_at (input v).key m ++ v ∷ []) m),
    lookup-insert (input v).key key (slice_at (input v).key m ++ v ∷ []) m,
    joined-snoc (lookup (input v).key m) v (with_key key history),
    string_key.same_iff (input v).key key,
  )

  group-Distinct :
      (history : List A) (m : List (String × List A)) → Distinct m → Distinct (group history m)
  unfolding group
  group-Distinct [] m d = d
  group-Distinct (v ∷ history) m d =
      group-Distinct history (insert (input v).key (slice_at (input v).key m ++ v ∷ []) m)
        (insert-Distinct (input v).key (slice_at (input v).key m ++ v ∷ []) m d)

occurrences-Distinct :
    {V : Type 0} (key : String) (m : List (String × V))
    → Distinct m
    → occurrences key (map (λ e. e.0) m) ≡ one_if_some (lookup key m)
unfolding lookup
occurrences-Distinct key [] d = refl
occurrences-Distinct key ((j, v) ∷ m) d =
    ground (arith, occurrences-Distinct key m d.1, d.0, string_key.same_iff j key)

module _ {A : Type 0} (input : A → KvInput) where
  -- `Partition` splits a history into groups, each of them the operations of the history on one
  -- key, in their order; a key has one group if the history has an operation on it, and none
  -- otherwise; and the keys of the groups ascend.
  pub partition_lem :
      (history : List A) (key : String)
      → (partition input history
          ≡ map (λ k. with_key input k history) (partition_keys input history))
        × (occurrences key (partition_keys input history) ≡ groups (with_key input key history))
        × Ascends (partition_keys input history)
  unfolding partition lookup
  partition_lem history key = (
    ap (λ f. map f (partition_keys input history)) (fun_ext λ k. slices k),
    ground (
      arith,
      occurrences-sort_strings key (map (λ e. e.0) (group input history [])),
      occurrences-Distinct key (group input history []) (group-Distinct input history [] tt),
      lookup-group input key history [],
      groups-joined (with_key input key history),
    ),
    sort_strings-Ascends (map (λ e. e.0) (group input history [])),
  )
    where
      slices : (k : String) → slice_at k (group input history []) ≡ with_key input k history
      slices k =
          ground (arith, lookup-group input k history [], slice-joined (with_key input k history))
