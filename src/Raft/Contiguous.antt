-- ===== src/Raft/Contiguous.antt =====
-- The shape of the log in src/raft/raft.go: it has a first entry, the dummy, and every other entry has
-- the index after the one before it. The accessors then find what they are asked for.
use cosi300a.Prelude.{
  ℕ, zero, suc, ◌+◌, ◌-◌, ◌≤◌, ◌<◌, ◌≡◌, refl, subst, some, List, [], ◌∷◌, ◌++◌, arith, length,
  get_elem?, take, drop, last?, length-append,
}
use cosi300a.Raft.Types.{LogItem}

module _ {C : Type 0} where
  -- The entries have the indices `n`, `n + 1`, … in order.
  abbrev pub Contiguous : ℕ → List (LogItem C) → Type 0
  Contiguous n [] = Unit
  Contiguous n (x ∷ xs) = (x.index ≡ n) × Contiguous (n + 1) xs

  abbrev pub IsLog : List (LogItem C) → Type 0
  IsLog [] = ⊥
  IsLog (x ∷ xs) = Contiguous (x.index + 1) xs

  -- The index of the first entry, and of the last.
  abbrev pub first : List (LogItem C) → ℕ
  first [] = 0
  first (x ∷ xs) = x.index

  abbrev pub final : List (LogItem C) → ℕ
  final [] = 0
  final (x ∷ xs) = x.index + length xs

  pub Contiguous-subst :
      {n m : ℕ} (xs : List (LogItem C)) → n ≡ m → Contiguous n xs → Contiguous m xs
  Contiguous-subst xs e h = subst (λ k. Contiguous k xs) e h

  pub Contiguous-append :
      (n : ℕ) (xs ys : List (LogItem C))
      → Contiguous n xs
      → Contiguous (n + length xs) ys
      → Contiguous n (xs ++ ys)
  Contiguous-append n [] ys h k = ground (arith, k)
  Contiguous-append n (x ∷ xs) ys h k =
      (h.0, Contiguous-append (n + 1) xs ys h.1 (Contiguous-subst ys (omega arith) k))

  pub Contiguous-take :
      (n k : ℕ) (xs : List (LogItem C)) → Contiguous n xs → Contiguous n (take k xs)
  Contiguous-take n zero xs h = tt
  Contiguous-take n (suc k) [] h = tt
  Contiguous-take n (suc k) (x ∷ xs) h = (h.0, Contiguous-take (n + 1) k xs h.1)

  pub Contiguous-drop :
      (n k : ℕ) (xs : List (LogItem C)) → Contiguous n xs → Contiguous (n + k) (drop k xs)
  Contiguous-drop n zero xs h = Contiguous-subst xs (omega arith) h
  Contiguous-drop n (suc k) [] h = tt
  Contiguous-drop n (suc k) (x ∷ xs) h =
      Contiguous-subst (drop k xs) (omega arith) (Contiguous-drop (n + 1) k xs h.1)

  pub last?-Contiguous :
      (n : ℕ) (x : LogItem C) (xs : List (LogItem C))
      → Contiguous n (x ∷ xs)
      → (item : LogItem C) × (last? (x ∷ xs) ≡ some item) × (item.index ≡ n + length xs)
  last?-Contiguous n x [] h = (x, refl, omega arith)
  last?-Contiguous n x (y ∷ ys) h =
      let (item, e, i) = last?-Contiguous (n + 1) y ys h.1 in (item, e, omega arith)

  pub get_elem?-Contiguous :
      (n i : ℕ) (xs : List (LogItem C))
      → Contiguous n xs
      → i < length xs
      → (item : LogItem C) × (get_elem? xs i ≡ some item) × (item.index ≡ n + i)
  get_elem?-Contiguous n i [] h lt = absurd (omega arith)
  get_elem?-Contiguous n zero (x ∷ xs) h lt = (x, refl, omega arith)
  get_elem?-Contiguous n (suc i) (x ∷ xs) h lt =
      let (item, e, j) = get_elem?-Contiguous (n + 1) i xs h.1 (omega arith) in
      (item, e, omega arith)

  -- The entries from `i` on go on from `i`.
  pub IsLog-drop :
      (log : List (LogItem C)) (i : ℕ)
      → IsLog log
      → first log ≤ i
      → Contiguous i (drop (i - first log) log)
  IsLog-drop [] i h lo = absurd h
  IsLog-drop (x ∷ xs) i h lo =
      Contiguous-subst (drop (i - x.index) (x ∷ xs)) (omega arith)
        (Contiguous-drop x.index (i - x.index) (x ∷ xs) (refl, h))

pub final-append :
    {C : Type 0} (log : List (LogItem C)) (item : LogItem C)
    → IsLog log
    → final (log ++ item ∷ []) ≡ final log + 1
final-append [] item h = absurd h
final-append (x ∷ xs) item h = omega (arith, length-append xs (item ∷ []))
