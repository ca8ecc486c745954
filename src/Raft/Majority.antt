-- ===== src/Raft/Majority.antt =====
-- `findMatch` of src/raft/raft.go against what Raft asks of it: the largest index that a majority has.
use cosi300a.Prelude.{
  All, ℕ, zero, suc, ◌+◌, ◌-◌, ◌/◌, ◌%◌, ◌≤◌, ◌<◌, ◌≡◌, ◌↔◌, inl, inr, refl, List, [], ◌∷◌, some,
  arith, ok, length, get_elem?, sort_ints, count_ge, sort_ints-IsSorted, count-sort_ints,
  length-sort_ints, count_ge-sorted, count_ge-above, count_ge_mono, at_least, ap, ◌∙◌, Bool-cases,
  leb,
}
use cosi300a.Raft.Log.{find_match, get_majority_count}

find_match-sorted :
    (xs : List ℕ) (m : ℕ) → find_match xs ≡ ok m → get_elem? (sort_ints xs) (length xs / 2) ≡ some m
unfolding find_match
find_match-sorted xs m e = ground arith

get_elem?-found : (xs : List ℕ) (i : ℕ) → i < length xs → (m : ℕ) × (get_elem? xs i ≡ some m)
get_elem?-found [] i h = absurd (omega arith)
get_elem?-found (x ∷ xs) zero h = (x, refl)
get_elem?-found (x ∷ xs) (suc i) h = get_elem?-found xs i (omega arith)

-- There is a middle as soon as there is a peer.
pub find_match-total : (xs : List ℕ) → 0 < length xs → (m : ℕ) × (find_match xs ≡ ok m)
unfolding find_match
find_match-total xs h =
    let (m, e) =
      get_elem?-found (sort_ints xs) (length xs / 2) (omega (arith, length-sort_ints xs)) in
    (m, ground (arith, e))

-- At least half of the peers have the index that is found, and more than half where their number is
-- odd.
pub find_match-half :
    (xs : List ℕ) (m : ℕ) → find_match xs ≡ ok m → length xs - length xs / 2 ≤ count_ge m xs
find_match-half xs m e = omega (
  arith,
  count_ge-sorted m (length xs / 2) (sort_ints xs) (sort_ints-IsSorted xs)
      (find_match-sorted xs m e),
  count-sort_ints (at_least m) xs,
  length-sort_ints xs,
)

-- More than half of the peers do not have a larger index.
find_match-above :
    (xs : List ℕ) (m k : ℕ)
    → find_match xs ≡ ok m
    → m < k
    → count_ge k xs + length xs / 2 + 1 ≤ length xs
find_match-above xs m k e lt = omega (
  arith,
  count_ge-above m k (length xs / 2) (sort_ints xs) (sort_ints-IsSorted xs)
      (find_match-sorted xs m e) lt,
  count-sort_ints (at_least k) xs,
  length-sort_ints xs,
)

-- Fewer than a majority have a larger index.
pub find_match-largest :
    (xs : List ℕ) (m k : ℕ)
    → find_match xs ≡ ok m
    → m < k
    → count_ge k xs < get_majority_count (length xs)
find_match-largest xs m k e lt = omega (arith, find_match-above xs m k e lt)

-- In a cluster of odd size, an index is at most the one that is found exactly if a majority of the
-- matches are at least that index.
pub find_match-majority :
    (xs : List ℕ) (m k : ℕ)
    → find_match xs ≡ ok m
    → length xs % 2 ≡ 1
    → (k ≤ m) ↔ (get_majority_count (length xs) ≤ count_ge k xs)
find_match-majority xs m k e odd = (
  (λ le. omega (arith, find_match-half xs m e, count_ge_mono k m xs le)),
  (λ maj. elim (Bool-cases (leb k m)) [
    | inl y ↦ ground arith
    | inr n ↦ absurd (omega (arith, maj, find_match-largest xs m k e (ground arith)))
  ]),
)

-- No index of a list in which none is larger than `k` reaches beyond `k`.
count_ge-none : (m k : ℕ) (xs : List ℕ) → k < m → All (λ x. x ≤ k) xs → count_ge m xs ≡ 0
count_ge-none m k [] lt h = refl
count_ge-none m k (x ∷ xs) lt h = ground (arith, count_ge-none m k xs lt h.1, h.0)

-- In a cluster of even size in which exactly half of the matches have reached an index and none is
-- larger, in whatever order the matches stand, that index is found, though less than a majority
-- have it.
pub find_match-even :
    (h k : ℕ) (xs : List ℕ)
    → 0 < h
    → length xs ≡ h + h
    → count_ge k xs ≡ h
    → All (λ x. x ≤ k) xs
    → (find_match xs ≡ ok k) × (count_ge k xs < get_majority_count (length xs))
find_match-even h k xs hh len half top =
    let (m, e) = find_match-total xs (omega arith) in
    let some_have : h ≤ count_ge m xs = omega (arith, find_match-half xs m e, len) in
    let low : ¬ (m < k) = λ lt. omega (arith, find_match-above xs m k e lt, half, len) in
    let high : ¬ (k < m) = λ lt. omega (arith, count_ge-none m k xs lt top, some_have) in
    (e ∙ ap ok (omega (arith, low, high)), omega (arith, half, len))
