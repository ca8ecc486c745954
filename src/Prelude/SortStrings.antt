-- ===== src/Prelude/SortStrings.antt =====
-- Go's `sort.Strings`: any correct sort gives the same list, so an insertion sort stands for it.
use Prim.Native.Nat.{ℕ, ◌+◌, Ordering, compare as compare_ℕ}
use Prim.Native.String.{String, [], ◌∷◌, compare, then as chain}
use Prim.Native.String.compare
use Prim.Native.Char.{code}
use mathlib.Core.Path.{◌≡◌, refl, sym, ap, ◌∙◌}
use mathlib.Core.Bool.{Bool, true, false}
use mathlib.Core.List.{List, [], ◌∷◌}
use native.Mathlib.Omega.{arith}
use cosi300a.Prelude.Tests.{if◌then◌else◌, ◌==◌, string_key}
use cosi300a.Prelude.Lists.{count}

abbrev pub insert_string : String → List String → List String
insert_string x [] = x ∷ []
insert_string x (y ∷ ys) =
    let rest = insert_string x ys in elim (compare x y) [ Ordering.gt ↦ y ∷ rest | _ ↦ x ∷ y ∷ ys ]

unfoldable pub sort_strings : List String → List String
sort_strings [] = []
sort_strings (x ∷ xs) = insert_string x (sort_strings xs)

abbrev not_gt : Ordering → Bool
not_gt Ordering.gt = false
not_gt _ = true

-- Each text of a list is not after the next one.
abbrev pub Ascends : List String → Type 0
Ascends [] = Unit
Ascends (x ∷ []) = Unit
Ascends (x ∷ y ∷ ys) = (not_gt (compare x y) ≡ true) × Ascends (y ∷ ys)

chain_total :
    (a b : ℕ) (o o' : Ordering)
    → (not_gt o ≡ false → not_gt o' ≡ true)
    → not_gt (chain (compare_ℕ a b) o) ≡ false
    → not_gt (chain (compare_ℕ b a) o') ≡ true
chain_total a b o o' h e = ground (arith, h, e)

compare_total : (s t : String) → not_gt (compare s t) ≡ false → not_gt (compare t s) ≡ true
compare_total [] [] e = ground (arith, e, compare.nil-nil)
compare_total [] (d ∷ t) e = ground (arith, e, compare.nil-cons d t)
compare_total (c ∷ s) [] e = ground (arith, compare.nil-cons c s)
compare_total (c ∷ s) (d ∷ t) e =
    ap not_gt (compare.cons-cons d c t s)
    ∙ chain_total (code c) (code d) (compare s t) (compare t s) (compare_total s t)
        (sym (ap not_gt (compare.cons-cons c d s t)) ∙ e)

insert_string-Ascends : (x : String) (xs : List String) → Ascends xs → Ascends (insert_string x xs)
insert_string-Ascends x [] h = tt
insert_string-Ascends x (y ∷ []) h = ground (arith, compare_total x y)
insert_string-Ascends x (y ∷ z ∷ zs) h =
    ground (arith, compare_total x y, compare_total x z, insert_string-Ascends x (z ∷ zs) h.1, h.0)

pub sort_strings-Ascends : (xs : List String) → Ascends (sort_strings xs)
unfolding sort_strings
sort_strings-Ascends [] = tt
sort_strings-Ascends (x ∷ xs) = insert_string-Ascends x (sort_strings xs) (sort_strings-Ascends xs)

-- How often a text is in a list.
abbrev pub occurrences : String → List String → ℕ
occurrences key keys = count (λ j. if j == key then 1 else 0) keys

occurrences-insert_string :
    (key x : String) (xs : List String)
    → occurrences key (insert_string x xs) ≡ (if x == key then 1 else 0) + occurrences key xs
occurrences-insert_string key x [] = refl
occurrences-insert_string key x (y ∷ ys) = ground (arith, occurrences-insert_string key x ys)

pub occurrences-sort_strings :
    (key : String) (xs : List String) → occurrences key (sort_strings xs) ≡ occurrences key xs
unfolding sort_strings
occurrences-sort_strings key [] = refl
occurrences-sort_strings key (x ∷ xs) =
    ground
      (arith, occurrences-insert_string key x (sort_strings xs), occurrences-sort_strings key xs)
