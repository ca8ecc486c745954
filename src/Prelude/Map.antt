-- ===== src/Prelude/Map.antt =====
-- Go's maps: association lists in which an assignment replaces the value of its key.
use mathlib.Core.Path.{◌≡◌, refl, subst}
use mathlib.Core.Logic.{inl, inr}
use mathlib.Core.Option.{Option, none, some, some-injective}
use mathlib.Core.List.{List, [], ◌∷◌}
use native.Mathlib.Omega.{arith}
use cosi300a.Prelude.Tests.{Key, ◌==◌, if◌then◌else◌, Bool-cases}
use cosi300a.Prelude.Lists.{All}

module _ {ℓ κ} {K : Type ℓ} {V : Type κ} ⦃e : Key K⦄ where
  unfoldable pub lookup : K → List (K × V) → Option V
  lookup key [] = none
  lookup key ((first, value) ∷ rest) =
      let found = lookup key rest in if first == key then some value else found

  unfoldable pub insert : K → V → List (K × V) → List (K × V)
  insert key value [] = (key, value) ∷ []
  insert key value ((first, old) ∷ rest) =
      let others = (first, old) ∷ insert key value rest in
      if first == key then (key, value) ∷ rest else others

  -- Go's `delete`.
  unfoldable pub delete : K → List (K × V) → List (K × V)
  delete key [] = []
  delete key ((first, old) ∷ rest) =
      let others = delete key rest in if first == key then others else (first, old) ∷ others

  pub lookup-insert :
      (key other : K) (value : V) (entries : List (K × V))
      → lookup other (insert key value entries)
        ≡ (if key == other then some value else lookup other entries)
  unfolding lookup insert
  lookup-insert key other value [] = refl
  lookup-insert key other value ((first, old) ∷ rest) = ground (
    arith,
    lookup-insert key other value rest,
    e.same_iff first other,
    e.same_iff first key,
    e.same_iff key other,
  )

  pub lookup-delete :
      (key other : K) (entries : List (K × V))
      → lookup other (delete key entries) ≡ (if key == other then none else lookup other entries)
  unfolding lookup delete
  lookup-delete key other [] = ground arith
  lookup-delete key other ((first, old) ∷ rest) = ground (
    arith,
    lookup-delete key other rest,
    e.same_iff first other,
    e.same_iff first key,
    e.same_iff key other,
  )

-- Each key has one entry.
module _ {ℓ κ} {K : Type ℓ} {V : Type κ} ⦃e : Key K⦄ where
  abbrev pub Distinct : List (K × V) → Type κ
  Distinct [] = Unit
  Distinct ((k, v) ∷ m) = (lookup k m ≡ none) × Distinct m

  pub insert-Distinct : (k : K) (v : V) (m : List (K × V)) → Distinct m → Distinct (insert k v m)
  unfolding insert lookup
  insert-Distinct k v [] d = (refl, tt)
  insert-Distinct k v ((j, w) ∷ m) d =
      ground
        (arith, e.same_iff j k, e.same_iff k j, lookup-insert k j v m, insert-Distinct k v m d.1)

  pub delete-Distinct : (k : K) (m : List (K × V)) → Distinct m → Distinct (delete k m)
  unfolding delete
  delete-Distinct k [] d = tt
  delete-Distinct k ((j, w) ∷ m) d =
      ground (arith, e.same_iff j k, lookup-delete k j m, delete-Distinct k m d.1)

-- What holds of every entry.
module _ {ℓ κ μ} {K : Type ℓ} {V : Type κ} ⦃e : Key K⦄ (P : K → V → Type μ) where
  pub insert-All :
      (k : K) (v : V) (m : List (K × V))
      → P k v
      → All (λ e. P e.0 e.1) m
      → All (λ e. P e.0 e.1) (insert k v m)
  unfolding insert
  insert-All k v [] p h = (p, tt)
  insert-All k v ((j, w) ∷ m) p h = elim (Bool-cases (j == k)) [
    | inl same ↦ rw same (p, h.1)
    | inr other ↦ rw other (h.0, insert-All k v m p h.1)
  ]

  pub lookup-All :
      (k : K) {v : V} (m : List (K × V)) → All (λ e. P e.0 e.1) m → lookup k m ≡ some v → P k v
  unfolding lookup
  lookup-All k [] h found = cc
  lookup-All k {v} ((j, w) ∷ m) h found = elim (Bool-cases (j == k)) [
    | inl same ↦
        subst (λ u. P k u) (some-injective w v (ground (arith, found, same)))
          (subst (λ i. P i w) (ground (arith, same, e.same_iff j k)) h.0)
    | inr other ↦ lookup-All k m h.1 (ground (arith, found, other))
  ]
