-- ===== src/Prelude/SortPerm.antt =====
-- Sorting forgets the order of the list it is given.
use Prim.Native.Nat.{ℕ}
use mathlib.Core.Path.{◌≡◌, refl, ap, ◌∙◌, sym}
use mathlib.Core.Bool.{true, false}
use mathlib.Core.List.{List, [], ◌∷◌, Permᴰ}
use mathlib.Core.Logic.{inl, inr}
use native.Mathlib.Omega.{arith}
use cosi300a.Prelude.Tests.{leb, Bool-cases}
use cosi300a.Prelude.Sort.{insert_sorted, sort_ints}

insert_sorted-le : (x z : ℕ) (zs : List ℕ) → leb x z ≡ true → insert_sorted x (z ∷ zs) ≡ x ∷ z ∷ zs
insert_sorted-le x z zs e = rw e refl

insert_sorted-gt :
    (x z : ℕ) (zs : List ℕ) → leb x z ≡ false → insert_sorted x (z ∷ zs) ≡ z ∷ insert_sorted x zs
insert_sorted-gt x z zs e = rw e refl

-- Two insertions at the head, the smaller number first.
insert_heads :
    (x y : ℕ) (zs : List ℕ)
    → leb x y ≡ true
    → insert_sorted y zs ≡ y ∷ zs
    → insert_sorted x (y ∷ zs) ≡ insert_sorted y (x ∷ zs)
insert_heads x y zs e h = elim (Bool-cases (leb y x)) [
  | inl same ↦
      let xy : x ≡ y = ground arith in
      let swapped : x ∷ y ∷ zs ≡ y ∷ x ∷ zs =
        ap (λ a. a ∷ y ∷ zs) xy ∙ ap (λ a. y ∷ a ∷ zs) (sym xy) in
      insert_sorted-le x y zs e ∙ swapped ∙ sym (insert_sorted-le y x zs same)
  | inr less ↦
      insert_sorted-le x y zs e ∙ ap (λ ws. x ∷ ws) (sym h) ∙ sym (insert_sorted-gt y x zs less)
]

insert_sorted_comm :
    (x y : ℕ) (zs : List ℕ)
    → leb x y ≡ true
    → insert_sorted x (insert_sorted y zs) ≡ insert_sorted y (insert_sorted x zs)
insert_sorted_comm x y [] e = insert_heads x y [] e refl
insert_sorted_comm x y (z ∷ zs) e = elim (Bool-cases (leb y z)) [
  | inl yz ↦
      let xz : leb x z ≡ true = ground arith in
      ap (insert_sorted x) (insert_sorted-le y z zs yz)
      ∙ insert_heads x y (z ∷ zs) e (insert_sorted-le y z zs yz)
      ∙ ap (insert_sorted y) (sym (insert_sorted-le x z zs xz))
  | inr yz ↦ elim (Bool-cases (leb x z)) [
    | inl xz ↦
        let yx : leb y x ≡ false = ground arith in
        ap (insert_sorted x) (insert_sorted-gt y z zs yz)
        ∙ insert_sorted-le x z (insert_sorted y zs) xz
        ∙ ap (λ ws. x ∷ ws) (sym (insert_sorted-gt y z zs yz))
        ∙ sym (insert_sorted-gt y x (z ∷ zs) yx)
        ∙ ap (insert_sorted y) (sym (insert_sorted-le x z zs xz))
    | inr xz ↦
        ap (insert_sorted x) (insert_sorted-gt y z zs yz)
        ∙ insert_sorted-gt x z (insert_sorted y zs) xz
        ∙ ap (λ ws. z ∷ ws) (insert_sorted_comm x y zs e)
        ∙ sym (insert_sorted-gt y z (insert_sorted x zs) yz)
        ∙ ap (insert_sorted y) (sym (insert_sorted-gt x z zs xz))
  ]
]

pub sort_ints-Perm : {xs ys : List ℕ} → Permᴰ xs ys → sort_ints xs ≡ sort_ints ys
unfolding sort_ints
sort_ints-Perm Permᴰ.nil = refl
sort_ints-Perm (Permᴰ.cons {a} {b} {l₁} {l₂} e d) =
    ap (λ x. insert_sorted x (sort_ints l₁)) e ∙ ap (insert_sorted b) (sort_ints-Perm d)
sort_ints-Perm (Permᴰ.swap {a} {b} {a'} {b'} {l} e f) =
    let swapped : insert_sorted a (insert_sorted b (sort_ints l))
        ≡ insert_sorted b (insert_sorted a (sort_ints l)) =
      elim (Bool-cases (leb a b)) [
        | inl less ↦ insert_sorted_comm a b (sort_ints l) less
        | inr more ↦ sym (insert_sorted_comm b a (sort_ints l) (ground arith))
      ] in
    rw (sym e, sym f) swapped
sort_ints-Perm (Permᴰ.trans d d') = sort_ints-Perm d ∙ sort_ints-Perm d'
