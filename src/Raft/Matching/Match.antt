-- ===== src/Raft/Matching/Match.antt =====
-- Two logs of src/raft/raft.go whose entries are all as they were created match.
use cosi300a.Prelude.{ℕ, zero, suc, ◌+◌, ◌-◌, ◌≤◌, ◌<◌, ◌≡◌, sym, ap, ◌∙◌, some, List, arith, ok}
use cosi300a.Raft.Types.{LogItem}
use cosi300a.Raft.Log.{get_log_item_at_index}
use cosi300a.Raft.Contiguous.{first}
use cosi300a.Raft.Accessors.{get_log_item_at_index-ok}
use cosi300a.Raft.Matching.Chain.{Created, IsChained, IsChained-at, found-IsLog}

module _ {C : Type 0} (created : Created C) (a b : List (LogItem C)) (ha : IsChained created a)
    (hb : IsChained created b) where
  -- Entries of one term and one index behind the first entries are the same, and so are the terms of
  -- the entries before them.
  same_entry :
      (i : ℕ) (x y : LogItem C)
      → first a < i
      → first b < i
      → get_log_item_at_index a i ≡ ok x
      → get_log_item_at_index b i ≡ ok y
      → x.term ≡ y.term
      → record {
        entry : x ≡ y;
        before :
            (p q : LogItem C)
            → get_log_item_at_index a (i - 1) ≡ ok p
            → get_log_item_at_index b (i - 1) ≡ ok q
            → p.term ≡ q.term;
      }
  same_entry i x y la lb ex ey t =
      let (p', c, ep', cx, kx) = IsChained-at created a i ha la ex in
      let (q', d, eq', cy, ky) = IsChained-at created b i hb lb ey in
      let ix = (get_log_item_at_index-ok a i x (found-IsLog created a i ha ex) ex).at in
      let iy = (get_log_item_at_index-ok b i y (found-IsLog created b i hb ey) ey).at in
      let same : some (c, p'.term) ≡ some (d, q'.term) = sym kx ∙ ap (λ k. created k i) t ∙ ky in
      record {
        entry = ground (arith, t, cx, cy, ix, iy, same);
        before = λ p q ep eq. ground (arith, ep, eq, ep', eq', same);
      }

  terms_match :
      (i d : ℕ) (x y p q : LogItem C)
      → first a ≤ i
      → first b ≤ i
      → get_log_item_at_index a (i + d) ≡ ok x
      → get_log_item_at_index b (i + d) ≡ ok y
      → x.term ≡ y.term
      → get_log_item_at_index a i ≡ ok p
      → get_log_item_at_index b i ≡ ok q
      → p.term ≡ q.term
  terms_match i zero x y p q la lb ex ey t ep eq =
      let z : i + 0 ≡ i = omega arith in ground (arith, ex, ey, t, ep, eq, z)
  terms_match i (suc d) x y p q la lb ex ey t ep eq =
      let (p', _, ep', _, _) = IsChained-at created a (i + suc d) ha (omega arith) ex in
      let (q', _, eq', _, _) = IsChained-at created b (i + suc d) hb (omega arith) ey in
      let before = (same_entry (i + suc d) x y (omega arith) (omega arith) ex ey t).before in
      let at : i + suc d - 1 ≡ i + d = omega arith in
      terms_match i d p' q' p q la lb (rw (sym at) ep') (rw (sym at) eq') (before p' q' ep' eq') ep
        eq

  -- Two logs that have entries of the same term at one index have the same entries before it.
  pub logs_match :
      (i j : ℕ) (x y p q : LogItem C)
      → i ≤ j
      → get_log_item_at_index a j ≡ ok x
      → get_log_item_at_index b j ≡ ok y
      → x.term ≡ y.term
      → get_log_item_at_index a i ≡ ok p
      → get_log_item_at_index b i ≡ ok q
      → (p.term ≡ q.term) × (first a < i → first b < i → p ≡ q)
  logs_match i j x y p q le ex ey t ep eq =
      let la = (get_log_item_at_index-ok a i p (found-IsLog created a i ha ep) ep).lo in
      let lb = (get_log_item_at_index-ok b i q (found-IsLog created b i hb eq) eq).lo in
      let at : i + (j - i) ≡ j = omega arith in
      let terms = terms_match i (j - i) x y p q la lb (rw at ex) (rw at ey) t ep eq in
      (terms, λ la' lb'. (same_entry i p q la' lb' ep eq terms).entry)
