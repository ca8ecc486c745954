-- ===== src/Shardmaster/Deal.antt =====
-- `redistributeShard` of src/shardmaster/server.go: which group gets which shard.
use cosi300a.Prelude.{
  ℕ, zero, suc, ◌+◌, ◌-◌, ◌*◌, ◌/◌, ◌≤◌, ◌<◌, ◌≡◌, ◌⊎◌, inl, inr, refl, ap, sym, ◌∙◌, some, List,
  [], ◌∷◌, arith, ok, nat_eq, length, get_elem?, get_elem?-set_self, get_elem?-set_ne, length-set,
  set, sort_ints, length-sort_ints, length-map, Bool-cases,
}
use cosi300a.Shardmaster.Types.{Groups}
use cosi300a.Shardmaster.Shards.{deal_group, deal, redistribute_shard, gids_of}

-- One group is dealt the shards from `i` up to and without `i + n`.
record Dealt (n gid i : ℕ) (before after : List ℕ) : Type 0 where
  size : length after ≡ length before
  given : (j : ℕ) → i ≤ j → j < i + n → get_elem? after j ≡ some gid
  left : (j : ℕ) → (j < i) ⊎ (i + n ≤ j) → get_elem? after j ≡ get_elem? before j

deal_group_lem :
    (n gid i : ℕ) (shards : List ℕ)
    → i + n ≤ length shards
    → (dealt : List ℕ) × (deal_group n gid i shards ≡ ok (dealt, i + n))
      × Dealt n gid i shards dealt
unfolding deal_group
deal_group_lem zero gid i shards h = (
  shards,
  ground arith,
  record { size = refl; given = λ j lo hi. absurd (omega arith); left = λ j o. refl },
)
deal_group_lem (suc n) gid i shards h =
    let one = set shards i gid in
    let len : length one ≡ length shards = length-set shards i gid in
    let (dealt, e, d) = deal_group_lem n gid (i + 1) one (omega (arith, len)) in
    let next : i + 1 + n ≡ i + suc n = omega arith in
    (
      dealt,
      ground (arith, e, next),
      record {
        size = omega (arith, d.size, len);
        given = λ j lo hi. elim (Bool-cases (nat_eq i j)) [
          | inl same ↦
              let ij : i ≡ j = ground arith in
              d.left j (inl (omega arith))
              ∙ ap (get_elem? one) (sym ij)
              ∙ get_elem?-set_self shards i gid (omega arith)
          | inr other ↦ d.given j (ground arith) (omega arith)
        ];
        left =
            λ j o. d.left j (outside j o) ∙ get_elem?-set_ne shards gid (λ e. omega (arith, e, o));
      },
    )
  where
    outside : (j : ℕ) → (j < i) ⊎ (i + suc n ≤ j) → (j < i + 1) ⊎ (i + 1 + n ≤ j)
    outside j o = omega arith

abbrev pub last_or : ℕ → List ℕ → ℕ
last_or d [] = d
last_or d (x ∷ xs) = last_or x xs

-- Group `q` of the keys is dealt the `q`-th run of `per` shards from `i` on.
record DealtAll (per i : ℕ) (keys before after : List ℕ) : Type 0 where
  size : length after ≡ length before
  given :
      (q o : ℕ) → q < length keys → o < per → get_elem? after (i + q * per + o) ≡ get_elem? keys q
  left : (j : ℕ) → (j < i) ⊎ (i + length keys * per ≤ j) → get_elem? after j ≡ get_elem? before j

deal_lem :
    (per : ℕ) (keys : List ℕ) (i d : ℕ) (shards : List ℕ)
    → i + length keys * per ≤ length shards
    → (dealt : List ℕ) × (deal per keys i d shards ≡ ok (dealt, last_or d keys))
      × DealtAll per i keys shards dealt
unfolding deal
deal_lem per [] i d shards h = (
  shards,
  refl,
  record { size = refl; given = λ q o hq ho. absurd (omega arith); left = λ j o. refl },
)
deal_lem per (gid ∷ keys) i d shards h =
    let (one, e1, d1) = deal_group_lem per gid i shards (omega arith) in
    let (dealt, e, dd) = deal_lem per keys (i + per) gid one (omega (arith, d1.size)) in
    (
      dealt,
      ground (arith, e1, e),
      record {
        size = omega (arith, dd.size, d1.size);
        given = first_or_later one dealt d1 dd;
        left = λ j o. dd.left j (omega arith) ∙ d1.left j (omega arith);
      },
    )
  where
    first_or_later :
        (one dealt : List ℕ)
        → Dealt per gid i shards one
        → DealtAll per (i + per) keys one dealt
        → (q o : ℕ) → q < length (gid ∷ keys)
        → o < per
        → get_elem? dealt (i + q * per + o) ≡ get_elem? (gid ∷ keys) q
    first_or_later one dealt d1 dd zero o hq ho =
        dd.left (i + zero * per + o) (inl (omega arith))
        ∙ d1.given (i + zero * per + o) (omega arith) (omega arith)
    first_or_later one dealt d1 dd (suc q) o hq ho =
        ap (get_elem? dealt) (omega arith) ∙ dd.given q o (omega arith) ho

-- What `redistributeShard` leaves where there is a group: with `per` shards to a group, shard
-- `q * per + o` goes to the `q`-th smallest group id, the last shard to the largest, and the shards in
-- between, if any, stay where they were.
pub record IsRedistributed (keys before after : List ℕ) : Type 0 where
  pub size : length after ≡ length before
  pub given :
      (q o : ℕ)
      → q < length keys
      → o < length before / length keys
      → q * (length before / length keys) + o + 1 < length before
      → get_elem? after (q * (length before / length keys) + o) ≡ get_elem? keys q
  pub last : get_elem? after (length before - 1) ≡ some (last_or 0 keys)
  pub left :
      (j : ℕ)
      → length keys * (length before / length keys) ≤ j
      → j + 1 < length before
      → get_elem? after j ≡ get_elem? before j

-- Each of the groups has an id among the sorted ones.
pub length-keys : (groups : Groups) → length (sort_ints (gids_of groups)) ≡ length groups
length-keys groups = omega (arith, length-sort_ints (gids_of groups), length-map groups (λ e. e.0))

room_for_all : (n len : ℕ) → n * (len / n) ≤ len
room_for_all n len = grind arith

-- Where there are groups and shards, the shards are dealt out without a panic: with `per` shards to
-- a group, shard `q * per + o` goes to the group with the `q`-th smallest id, the last shard goes
-- to the group with the largest, and the shards in between, if any, stay where they were.
pub redistribute_shard_lem :
    (groups : Groups) (shards : List ℕ)
    → 0 < length groups
    → 0 < length shards
    → (dealt : List ℕ) × (redistribute_shard groups shards ≡ ok dealt)
      × IsRedistributed (sort_ints (gids_of groups)) shards dealt
unfolding redistribute_shard
redistribute_shard_lem groups shards hg hs =
    let (dealt, e, d) =
      deal_lem per keys 0 0 shards
        (rw n (omega (arith, room_for_all (length groups) (length shards)))) in
    let final = set dealt (length dealt - 1) (last_or 0 keys) in
    (
      final,
      ground (arith, e, d.size),
      record {
        size = length-set dealt (length dealt - 1) (last_or 0 keys) ∙ d.size;
        given = λ q o hq ho hl. rw n (given_shard dealt d q o hq (rw n at ho) (rw n at hl));
        last =
            ap (get_elem? final) (omega (arith, d.size))
            ∙ get_elem?-set_self dealt (length dealt - 1) (last_or 0 keys) (omega (arith, d.size));
        left = λ j lo hi. other dealt d j hi ∙ d.left j (behind j (rw n at lo));
      },
    )
  where
    keys : List ℕ
    keys = sort_ints (gids_of groups)

    per : ℕ
    per = length shards / length groups

    n : length keys ≡ length groups
    n = length-keys groups

    behind : (j : ℕ) → length groups * per ≤ j → (j < 0) ⊎ (0 + length keys * per ≤ j)
    behind j lo = inr (rw n (omega (arith, lo)))

    other :
        (dealt : List ℕ)
        → DealtAll per 0 keys shards dealt
        → (j : ℕ) → j + 1 < length shards
        → get_elem? (set dealt (length dealt - 1) (last_or 0 keys)) j ≡ get_elem? dealt j
    other dealt d j hi = get_elem?-set_ne dealt (last_or 0 keys) (λ e. omega (arith, e, d.size))

    given_shard :
        (dealt : List ℕ)
        → DealtAll per 0 keys shards dealt
        → (q o : ℕ) → q < length keys
        → o < per
        → q * per + o + 1 < length shards
        → get_elem? (set dealt (length dealt - 1) (last_or 0 keys)) (q * per + o) ≡ get_elem? keys q
    given_shard dealt d q o hq ho hl =
        other dealt d (q * per + o) hl ∙ ap (get_elem? dealt) (omega arith) ∙ d.given q o hq ho
