-- ===== src/Prelude/Order.antt =====
-- Sorted lists of numbers, how many elements pass a bound, and the insertion sort.
use Prim.Native.Nat.{ℕ, zero, suc, ◌+◌, ◌≤◌, ◌<◌}
use mathlib.Core.Path.{◌≡◌, refl, ap, ◌∙◌}
use mathlib.Core.Option.{some}
use mathlib.Core.List.{List, [], ◌∷◌}
use mathlib.Core.Logic.{◌⊎◌, inl, inr}
use native.Mathlib.Omega.{arith}
use cosi300a.Prelude.Tests.{leb, if◌then◌else◌, Bool-cases}
use cosi300a.Prelude.Lists.{length, get_elem?, All, count}
use cosi300a.Prelude.Sort.{insert_sorted, sort_ints}

abbrev pub at_least : ℕ → ℕ → ℕ
at_least m x = if leb m x then 1 else 0

-- How many elements are at least `m`.
abbrev pub count_ge : ℕ → List ℕ → ℕ
count_ge m xs = count (at_least m) xs

abbrev pub IsSorted : List ℕ → Type 0
IsSorted [] = Unit
IsSorted (x ∷ xs) = All (λ y. x ≤ y) xs × IsSorted xs

All-weaken : (a b : ℕ) (xs : List ℕ) → a ≤ b → All (λ y. b ≤ y) xs → All (λ y. a ≤ y) xs
All-weaken a b [] h k = tt
All-weaken a b (x ∷ xs) h k = (omega arith, All-weaken a b xs h k.1)

All-insert_sorted :
    (a x : ℕ) (xs : List ℕ) → a ≤ x → All (λ y. a ≤ y) xs → All (λ y. a ≤ y) (insert_sorted x xs)
All-insert_sorted a x [] h k = (h, tt)
All-insert_sorted a x (y ∷ ys) h k = ground (arith, h, k, All-insert_sorted a x ys h k.1)

insert_sorted-IsSorted : (x : ℕ) (xs : List ℕ) → IsSorted xs → IsSorted (insert_sorted x xs)
insert_sorted-IsSorted x [] s = (tt, tt)
insert_sorted-IsSorted x (y ∷ ys) s = elim (Bool-cases (leb x y)) [
  | inl e ↦ rw e ((ground arith, All-weaken x y ys (ground arith) s.0), s)
  | inr e ↦ rw e (All-insert_sorted y x ys (ground arith) s.0, insert_sorted-IsSorted x ys s.1)
]

pub sort_ints-IsSorted : (xs : List ℕ) → IsSorted (sort_ints xs)
unfolding sort_ints
sort_ints-IsSorted [] = tt
sort_ints-IsSorted (x ∷ xs) = insert_sorted-IsSorted x (sort_ints xs) (sort_ints-IsSorted xs)

count-insert_sorted :
    (w : ℕ → ℕ) (x : ℕ) (xs : List ℕ) → count w (insert_sorted x xs) ≡ w x + count w xs
count-insert_sorted w x [] = refl
count-insert_sorted w x (y ∷ ys) = ground (arith, count-insert_sorted w x ys)

-- Sorting keeps every count.
pub count-sort_ints : (w : ℕ → ℕ) (xs : List ℕ) → count w (sort_ints xs) ≡ count w xs
unfolding sort_ints
count-sort_ints w [] = refl
count-sort_ints w (x ∷ xs) =
    count-insert_sorted w x (sort_ints xs) ∙ ap (λ n. w x + n) (count-sort_ints w xs)

length-insert_sorted : (x : ℕ) (xs : List ℕ) → length (insert_sorted x xs) ≡ suc (length xs)
length-insert_sorted x [] = refl
length-insert_sorted x (y ∷ ys) = ground (arith, length-insert_sorted x ys)

pub length-sort_ints : (xs : List ℕ) → length (sort_ints xs) ≡ length xs
unfolding sort_ints
length-sort_ints [] = refl
length-sort_ints (x ∷ xs) = length-insert_sorted x (sort_ints xs) ∙ ap suc (length-sort_ints xs)

-- All elements pass a bound that is below each.
count_ge-All : (m : ℕ) (xs : List ℕ) → All (λ y. m ≤ y) xs → count_ge m xs ≡ length xs
count_ge-All m [] h = refl
count_ge-All m (x ∷ xs) h = ground (arith, h, count_ge-All m xs h.1)

pub count_ge-le-length : (m : ℕ) (xs : List ℕ) → count_ge m xs ≤ length xs
count_ge-le-length m [] = omega arith
count_ge-le-length m (x ∷ xs) = ground (arith, count_ge-le-length m xs)

All-at : (a m i : ℕ) (xs : List ℕ) → All (λ y. a ≤ y) xs → get_elem? xs i ≡ some m → a ≤ m
All-at a m i [] h e = cc
All-at a m zero (x ∷ xs) h e = ground (arith, h)
All-at a m (suc i) (x ∷ xs) h e = All-at a m i xs h.1 e

-- In a sorted list, the element at `i` is at most those from `i` on.
pub count_ge-sorted :
    (m i : ℕ) (xs : List ℕ) → IsSorted xs → get_elem? xs i ≡ some m → length xs ≤ count_ge m xs + i
count_ge-sorted m i [] s e = cc
count_ge-sorted m zero (x ∷ xs) s e = ground (arith, count_ge-All m xs, s)
count_ge-sorted m (suc i) (x ∷ xs) s e = ground (arith, count_ge-sorted m i xs s.1 e)

-- Only those behind `i` pass a larger bound.
pub count_ge-above :
    (m k i : ℕ) (xs : List ℕ)
    → IsSorted xs
    → get_elem? xs i ≡ some m
    → m < k
    → count_ge k xs + i + 1 ≤ length xs
count_ge-above m k i [] s e lt = cc
count_ge-above m k zero (x ∷ xs) s e lt = ground (arith, count_ge-le-length k xs)
count_ge-above m k (suc i) (x ∷ xs) s e lt =
    ground (arith, count_ge-above m k i xs s.1 e lt, All-at x m i xs s.0 e)

-- A smaller bound is passed by at least as many.
pub count_ge_mono : (m k : ℕ) (xs : List ℕ) → m ≤ k → count_ge k xs ≤ count_ge m xs
count_ge_mono m k [] h = omega arith
count_ge_mono m k (x ∷ xs) h = ground (arith, count_ge_mono m k xs h)

-- The number stands in the list.
abbrev pub Among : ℕ → List ℕ → Type 0
Among a [] = ⊥
Among a (x ∷ xs) = (a ≡ x) ⊎ Among a xs

pub get_elem?-Among : (a i : ℕ) (xs : List ℕ) → get_elem? xs i ≡ some a → Among a xs
get_elem?-Among a i [] e = cc
get_elem?-Among a zero (x ∷ xs) e = inl (ground (arith, e))
get_elem?-Among a (suc i) (x ∷ xs) e = inr (get_elem?-Among a i xs e)

insert_sorted-Among : (a x : ℕ) (xs : List ℕ) → Among a (insert_sorted x xs) → Among a (x ∷ xs)
insert_sorted-Among a x [] h = h
insert_sorted-Among a x (y ∷ ys) h = ground (arith, h, insert_sorted-Among a x ys)

pub sort_ints-Among : (a : ℕ) (xs : List ℕ) → Among a (sort_ints xs) → Among a xs
unfolding sort_ints
sort_ints-Among a [] h = h
sort_ints-Among a (x ∷ xs) h =
    ground (arith, insert_sorted-Among a x (sort_ints xs) h, sort_ints-Among a xs)
