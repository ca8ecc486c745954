-- ===== src/Shardmaster/Served.antt =====
-- `redistributeShard` of src/shardmaster/server.go: every shard goes to a group.
use cosi300a.Prelude.{
  ℕ, zero, suc, ◌+◌, ◌-◌, ◌*◌, ◌/◌, ◌≤◌, ◌<◌, ◌≡◌, inl, inr, refl, ap, sym, ◌∙◌, some, List, [],
  ◌∷◌, arith, ok, ltb, length, get_elem?, sort_ints, Bool-cases,
}
use cosi300a.Shardmaster.Types.{Groups}
use cosi300a.Shardmaster.Shards.{redistribute_shard, gids_of}
use cosi300a.Shardmaster.Deal.{length-keys, last_or, IsRedistributed, redistribute_shard_lem}

abbrev pub Serves : List ℕ → ℕ → Type 0
Serves keys gid = (q : ℕ) × (q < length keys) × (get_elem? keys q ≡ some gid)

last_or-Serves : (d gid : ℕ) (keys : List ℕ) → Serves (gid ∷ keys) (last_or d (gid ∷ keys))
last_or-Serves d gid [] = (0, omega arith, refl)
last_or-Serves d gid (next ∷ keys) =
    let (q, lt, e) = last_or-Serves gid next keys in (suc q, omega arith, e)

last_or-member : (keys : List ℕ) → 0 < length keys → Serves keys (last_or 0 keys)
last_or-member [] h = absurd (omega arith)
last_or-member (gid ∷ keys) h = last_or-Serves 0 gid keys

get-held : {A : Type 0} (i : ℕ) (xs : List A) → i < length xs → (x : A) × (get_elem? xs i ≡ some x)
get-held i [] h = absurd (omega arith)
get-held zero (x ∷ xs) h = (x, refl)
get-held (suc i) (x ∷ xs) h = get-held i xs (omega arith)

split_run : (j per n : ℕ) → j < n * per → (q o : ℕ) × (q < n) × (o < per) × (j ≡ q * per + o)
split_run j per zero h = absurd (omega arith)
split_run j per (suc n) h = elim (Bool-cases (ltb j (n * per))) [
  | inl near ↦ let (q, o, a, b, e) = split_run j per n (ground arith) in (q, o, omega arith, b, e)
  | inr far ↦
      let lo : n * per ≤ j = ground arith in (n, j - n * per, omega arith, omega arith, omega arith)
]

-- Where the groups divide the shards with at most one left over, every shard is dealt to one of the
-- groups.
pub redistribute_shard-Serves :
    (groups : Groups) (shards dealt : List ℕ)
    → 0 < length groups
    → length shards ≤ length groups * (length shards / length groups) + 1
    → redistribute_shard groups shards ≡ ok dealt
    → (j : ℕ) → j < length shards
    → (gid : ℕ) × (get_elem? dealt j ≡ some gid) × Serves (sort_ints (gids_of groups)) gid
redistribute_shard-Serves groups shards dealt hg fits e j hj =
    elim (Bool-cases (ltb (j + 1) (length shards))) [
      | inl inner ↦
          let (q, o, hq, ho, ej) =
            split_run j (length shards / length keys) (length keys) (rw n (ground arith)) in
          let (gid, eg) = get-held q keys hq in
          (gid, ap (get_elem? dealt) ej ∙ d.given q o hq ho (ground arith) ∙ eg, (q, hq, eg))
      | inr outer ↦
          let top : j ≡ length shards - 1 = ground arith in
          (
            last_or 0 keys,
            ap (get_elem? dealt) top ∙ d.last,
            last_or-member keys (omega (arith, n)),
          )
    ]
  where
    keys : List ℕ
    keys = sort_ints (gids_of groups)

    n : length keys ≡ length groups
    n = length-keys groups

    d : IsRedistributed keys shards dealt
    d =
        let (known, e', d') = redistribute_shard_lem groups shards hg (omega arith) in
        let same : known ≡ dealt = cc in rw (sym same) d'
