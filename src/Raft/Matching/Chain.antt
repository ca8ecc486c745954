-- ===== src/Raft/Matching/Chain.antt =====
-- The entries of the logs of src/raft/raft.go that follow one another, against a record of all the
-- entries that were ever created.
use cosi300a.Prelude.{
  ℕ, zero, suc, ◌+◌, ◌-◌, ◌<◌, ◌≡◌, refl, sym, ap, ◌∙◌, subst, some-injective, Option, some, List,
  [], ◌∷◌, ◌++◌, arith, ok, take, drop, get_elem?, length, drop-get, length-drop,
}
use cosi300a.Raft.Types.{command, LogItem}
use cosi300a.Raft.Log.{get_log_item_at_index}
use cosi300a.Raft.Contiguous.{IsLog, first, final, Contiguous}
use cosi300a.Raft.Accessors.{get_log_item_at_index-ok, get_log_item_at_index-found}

-- The entry of a term and an index: its command, and the term of the entry before it.
abbrev pub Created : Type 0 → Type 0
Created C = ℕ → ℕ → Option (C × ℕ)

module _ {C : Type 0} (created : Created C) where
  -- The entries have the indices `n`, `n + 1`, … in order and are as they were created, the first one
  -- behind an entry of term `prev`.
  abbrev pub Chain : ℕ → ℕ → List (LogItem C) → Type 0
  Chain prev n [] = Unit
  Chain prev n (x ∷ xs) =
      (x.index ≡ n)
      × ((c : C) × (x.command ≡ command c) × (created x.term n ≡ some (c, prev)))
      × Chain x.term (n + 1) xs

  -- What is behind the first entry of a log, if it has one.
  abbrev pub IsChained : List (LogItem C) → Type 0
  IsChained [] = Unit
  IsChained (x ∷ xs) = Chain x.term (x.index + 1) xs

final-length :
    {C : Type 0} (log : List (LogItem C)) → IsLog log → final log + 1 ≡ first log + length log
final-length [] h = absurd h
final-length (x ∷ xs) h = omega arith

module _ {C : Type 0} (created : Created C) where
  pub Chain-subst :
      {p q n m : ℕ} (xs : List (LogItem C))
      → p ≡ q
      → n ≡ m
      → Chain created p n xs
      → Chain created q m xs
  Chain-subst {p} {q} {n} {m} xs e f h =
      subst (λ k. Chain created q k xs) f (subst (λ k. Chain created k n xs) e h)

  pub Chain-Contiguous : (p n : ℕ) (xs : List (LogItem C)) → Chain created p n xs → Contiguous n xs
  Chain-Contiguous p n [] h = tt
  Chain-Contiguous p n (x ∷ xs) h = (h.0, Chain-Contiguous x.term (n + 1) xs h.2)

  pub IsChained-IsLog :
      (log : List (LogItem C)) → IsChained created log → 0 < length log → IsLog log
  IsChained-IsLog [] h lt = absurd (omega arith)
  IsChained-IsLog (x ∷ xs) h lt = Chain-Contiguous x.term (x.index + 1) xs h

  pub Chain-take :
      (p n k : ℕ) (xs : List (LogItem C)) → Chain created p n xs → Chain created p n (take k xs)
  Chain-take p n zero xs h = tt
  Chain-take p n (suc k) [] h = tt
  Chain-take p n (suc k) (x ∷ xs) h = (h.0, h.1, Chain-take x.term (n + 1) k xs h.2)

  pub IsChained-take :
      (k : ℕ) (xs : List (LogItem C)) → IsChained created xs → IsChained created (take k xs)
  IsChained-take zero xs h = tt
  IsChained-take (suc k) [] h = tt
  IsChained-take (suc k) (x ∷ xs) h = Chain-take x.term (x.index + 1) k xs h

  -- The rest behind an entry is a chain.
  pub Chain-drop :
      (p n k : ℕ) (xs : List (LogItem C)) {x : LogItem C}
      → Chain created p n xs
      → get_elem? xs k ≡ some x
      → (x.index ≡ n + k) × Chain created x.term (n + k + 1) (drop (suc k) xs)
  Chain-drop p n k [] h e = cc
  Chain-drop p n zero (y ∷ ys) {x} h e =
      subst (λ z. (z.index ≡ n + 0) × Chain created z.term (n + 0 + 1) ys) (some-injective y x e)
        (omega (arith, h.0), Chain-subst ys refl (omega arith) h.2)
  Chain-drop p n (suc k) (y ∷ ys) {x} h e =
      let (i, l) = Chain-drop y.term (n + 1) k ys h.2 e in
      (omega (arith, i), Chain-subst (drop (suc k) ys) refl (omega arith) l)

  -- A prefix up to an entry, with a chain behind that entry.
  pub Chain-append :
      (p n k : ℕ) (xs ys : List (LogItem C)) {x : LogItem C}
      → Chain created p n xs
      → get_elem? xs k ≡ some x
      → Chain created x.term (n + k + 1) ys
      → Chain created p n (take (suc k) xs ++ ys)
  Chain-append p n k [] ys h e l = cc
  Chain-append p n zero (y ∷ xs) ys {x} h e l =
      let same : x ≡ y = sym (some-injective y x e) in
      (h.0, h.1, Chain-subst ys (ap (λ z. z.term) same) (omega arith) l)
  Chain-append p n (suc k) (y ∷ xs) ys {x} h e l =
      (h.0, h.1, Chain-append y.term (n + 1) k xs ys h.2 e (Chain-subst ys refl (omega arith) l))

  Chain-at :
      (y : LogItem C) (n k : ℕ) (xs : List (LogItem C)) {p x : LogItem C}
      → Chain created y.term n xs
      → get_elem? (y ∷ xs) k ≡ some p
      → get_elem? xs k ≡ some x
      → (c : C) × (x.command ≡ command c) × (created x.term (n + k) ≡ some (c, p.term))
  Chain-at y n k [] h e f = cc
  Chain-at y n zero (z ∷ zs) {p} {x} h e f = ground (arith, e, f, h)
  Chain-at y n (suc k) (z ∷ zs) {p} {x} h e f =
      let (c, a, b) = Chain-at z (n + 1) k zs h.2 e f in
      let shift : n + 1 + k ≡ n + suc k = omega arith in
      (c, a, ap (λ j. created x.term j) (sym shift) ∙ b)

  pub found-IsLog :
      (log : List (LogItem C)) (i : ℕ) {x : LogItem C}
      → IsChained created log
      → get_log_item_at_index log i ≡ ok x
      → IsLog log
  unfolding get_log_item_at_index
  found-IsLog [] i h e = ground arith
  found-IsLog (y ∷ ys) i h e = IsChained-IsLog (y ∷ ys) h (omega arith)

  -- The entry at an index behind the first one is as it was created, behind the entry before it.
  pub IsChained-at :
      (log : List (LogItem C)) (i : ℕ) {x : LogItem C}
      → IsChained created log
      → first log < i
      → get_log_item_at_index log i ≡ ok x
      → (p : LogItem C) × (c : C) × (get_log_item_at_index log (i - 1) ≡ ok p)
        × (x.command ≡ command c)
        × (created x.term i ≡ some (c, p.term))
  IsChained-at [] i h lo e = absurd (found-IsLog [] i h e)
  IsChained-at (y ∷ ys) i {x} h lo e =
      let shape : IsLog (y ∷ ys) = found-IsLog (y ∷ ys) i h e in
      let here = get_log_item_at_index-ok (y ∷ ys) i x shape e in
      let (p, f, _, q) =
        get_log_item_at_index-found (y ∷ ys) (i - 1) shape (omega arith) (omega (arith, here.hi)) in
      let at : i - y.index ≡ suc (i - 1 - y.index) = omega arith in
      let behind : get_elem? ys (i - 1 - y.index) ≡ some x =
        ap (λ k. get_elem? (y ∷ ys) k) (sym at) ∙ here.elem in
      let (c, a, b) = Chain-at y (y.index + 1) (i - 1 - y.index) ys h q behind in
      let index : i ≡ y.index + 1 + (i - 1 - y.index) = omega arith in
      (p, c, f, a, ap (λ k. created x.term k) index ∙ b)

  rest_of :
      (y : LogItem C) (ys : List (LogItem C)) (k : ℕ) {x : LogItem C}
      → IsChained created (y ∷ ys)
      → get_elem? (y ∷ ys) k ≡ some x
      → Chain created x.term (y.index + k + 1) (drop k ys)
  rest_of y ys zero {x} h e =
      Chain-subst ys (ap (λ z. z.term) (some-injective y x e)) (omega arith) h
  rest_of y ys (suc k) h e =
      Chain-subst (drop (suc k) ys) refl (omega arith) (Chain-drop y.term (y.index + 1) k ys h e).1

  replaced :
      (y : LogItem C) (ys zs : List (LogItem C)) (k : ℕ) {x : LogItem C}
      → IsChained created (y ∷ ys)
      → get_elem? (y ∷ ys) k ≡ some x
      → Chain created x.term (y.index + k + 1) zs
      → IsChained created (y ∷ take k ys ++ zs)
  replaced y ys zs zero {x} h e l =
      Chain-subst zs (ap (λ z. z.term) (sym (some-injective y x e))) (omega arith) l
  replaced y ys zs (suc k) h e l =
      Chain-append y.term (y.index + 1) k ys zs h e (Chain-subst zs refl (omega arith) l)

  -- What is behind an entry of a log is a chain behind that entry's term.
  pub IsChained-drop :
      (log : List (LogItem C)) (i : ℕ) {x : LogItem C}
      → IsChained created log
      → get_log_item_at_index log i ≡ ok x
      → Chain created x.term (i + 1) (drop (i + 1 - first log) log)
  IsChained-drop [] i h e = absurd (found-IsLog [] i h e)
  IsChained-drop (y ∷ ys) i {x} h e =
      let here = get_log_item_at_index-ok (y ∷ ys) i x (found-IsLog (y ∷ ys) i h e) e in
      let size : i + 1 - y.index ≡ suc (i - y.index) = omega (arith, here.lo) in
      rw size (
        Chain-subst (drop (i - y.index) ys) refl (omega (arith, here.lo))
          (rest_of y ys (i - y.index) h here.elem))

  -- A chain behind an entry of a log can stand in place of what is behind it.
  pub IsChained-replace :
      (log zs : List (LogItem C)) (i : ℕ) {x : LogItem C}
      → IsChained created log
      → get_log_item_at_index log i ≡ ok x
      → Chain created x.term (i + 1) zs
      → IsChained created (take (i + 1 - first log) log ++ zs)
  IsChained-replace [] zs i h e l = absurd (found-IsLog [] i h e)
  IsChained-replace (y ∷ ys) zs i {x} h e l =
      let here = get_log_item_at_index-ok (y ∷ ys) i x (found-IsLog (y ∷ ys) i h e) e in
      let size : i + 1 - y.index ≡ suc (i - y.index) = omega (arith, here.lo) in
      rw size (
        replaced y ys zs (i - y.index) h here.elem (Chain-subst zs refl (omega (arith, here.lo)) l))

  -- A log can be cut at any of its entries.
  pub IsChained-cut :
      (log : List (LogItem C)) (i : ℕ) {x : LogItem C}
      → IsChained created log
      → get_log_item_at_index log i ≡ ok x
      → IsChained created (drop (i - first log) log)
        × (final (drop (i - first log) log) ≡ final log)
  IsChained-cut log i {x} h e =
      let shape = found-IsLog log i h e in
      let here = get_log_item_at_index-ok log i x shape e in
      let cut = drop-get (i - first log) log here.elem in
      let rest = IsChained-drop log i h e in
      let shift : i - first log + 1 ≡ i + 1 - first log = omega (arith, here.lo) in
      rw cut (
        Chain-subst (drop (i - first log + 1) log) refl (ap (λ k. k + 1) (sym here.at))
            (rw shift rest),
        omega (
          arith,
          here.at,
          here.lo,
          here.hi,
          length-drop (i - first log + 1) log,
          final-length log shape,
        ),
      )
