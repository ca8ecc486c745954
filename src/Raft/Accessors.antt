-- ===== src/Raft/Accessors.antt =====
-- The accessors of the log in src/raft/raft.go find in a log what they are asked for.
use cosi300a.Prelude.{
  ℕ, zero, suc, ◌+◌, ◌-◌, ◌≤◌, ◌<◌, ◌≡◌, ◌⊎◌, refl, some, List, [], ◌∷◌, arith, ok, panic, length,
  get_elem?, take, drop, length-drop, take_all, drop_all, drop-get, leb, ltb, ◌&&◌, ◌||◌,
  Bool-cases, inl, inr,
}
use cosi300a.Raft.Types.{LogItem}
use cosi300a.Raft.Log.{
  get_last_log_index, get_dummy_log_index, get_log_item_at_index, get_last_log_term,
  log_contain_index, get_log_item_slice, delete_log_from_index_inclusive, append_log_items,
  get_append_log_item, slice,
}
use cosi300a.Raft.Contiguous.{last?-Contiguous, get_elem?-Contiguous, IsLog, first, final}

slice_prefix : {A : Type 0} (k : ℕ) (xs : List A) → k ≤ length xs → slice xs 0 k ≡ ok (take k xs)
slice_prefix k xs h = ground (arith, same k)
  where
    same : (n : ℕ) → n - 0 ≡ n
    same n = omega arith

slice_suffix :
    {A : Type 0} (i j : ℕ) (xs : List A) → i ≤ j → j ≡ length xs → slice xs i j ≡ ok (drop i xs)
slice_suffix i j xs h e = ground (arith, take_all (j - i) (drop i xs), length-drop i xs)

module _ {C : Type 0} where
  pub get_dummy_log_index-IsLog :
      (log : List (LogItem C)) → IsLog log → get_dummy_log_index log ≡ ok (first log)
  unfolding get_dummy_log_index
  get_dummy_log_index-IsLog [] h = absurd h
  get_dummy_log_index-IsLog (x ∷ xs) h = refl

  pub get_last_log_index-IsLog :
      (log : List (LogItem C)) → IsLog log → get_last_log_index log ≡ ok (final log)
  unfolding get_last_log_index
  get_last_log_index-IsLog [] h = absurd h
  get_last_log_index-IsLog (x ∷ xs) h =
      let (item, e, i) = last?-Contiguous x.index x xs (refl, h) in ground (arith, e, i)

  -- In a log, the entry between the first and the last index that is asked for is found, and has
  -- that index.
  pub get_log_item_at_index-found :
      (log : List (LogItem C)) (i : ℕ)
      → IsLog log
      → first log ≤ i
      → i ≤ final log
      → (item : LogItem C) × (get_log_item_at_index log i ≡ ok item)
        × (item.index ≡ i)
        × (get_elem? log (i - first log) ≡ some item)
  unfolding get_log_item_at_index
  get_log_item_at_index-found [] i h lo hi = absurd h
  get_log_item_at_index-found (x ∷ xs) i h lo hi =
      let (item, e, j) =
        get_elem?-Contiguous x.index (i - x.index) (x ∷ xs) (refl, h) (omega arith) in
      (item, ground (arith, get_last_log_index-IsLog (x ∷ xs) h, e), omega arith, e)

  -- Outside it panics.
  pub get_log_item_at_index-panic :
      (log : List (LogItem C)) (i : ℕ)
      → IsLog log
      → (i < first log) ⊎ (final log < i)
      → get_log_item_at_index log i ≡ panic
  unfolding get_log_item_at_index
  get_log_item_at_index-panic [] i h o = absurd h
  get_log_item_at_index-panic (x ∷ xs) i h o = ground (arith, get_last_log_index-IsLog (x ∷ xs) h)

  -- What is found is the entry of that index.
  pub get_log_item_at_index-ok :
      (log : List (LogItem C)) (i : ℕ) (item : LogItem C)
      → IsLog log
      → get_log_item_at_index log i ≡ ok item
      → record {
        lo : first log ≤ i;
        hi : i ≤ final log;
        at : item.index ≡ i;
        elem : get_elem? log (i - first log) ≡ some item;
      }
  get_log_item_at_index-ok log i item h e =
      elim (Bool-cases (ltb i (first log) || ltb (final log) i)) [
        | inl out ↦ ground (arith, e, out, get_log_item_at_index-panic log i h)
        | inr within ↦
            let (x, f, j, k) = get_log_item_at_index-found log i h (ground arith) (ground arith) in
            record {
              lo = ground arith;
              hi = ground arith;
              at = ground (arith, e, f, j);
              elem = ground (arith, e, f, k);
            }
      ]

  pub get_last_log_term-IsLog :
      (log : List (LogItem C)) → IsLog log → (term : ℕ) × (get_last_log_term log ≡ ok term)
  unfolding get_last_log_term
  get_last_log_term-IsLog [] h = absurd h
  get_last_log_term-IsLog (x ∷ xs) h =
      let (item, e, i, f) =
        get_log_item_at_index-found (x ∷ xs) (x.index + length xs) h (omega arith) (omega arith) in
      (item.term, ground (arith, get_last_log_index-IsLog (x ∷ xs) h, e))

  -- Deleting from `i` on keeps the entries below `i`.
  pub delete_log_lem :
      (log : List (LogItem C)) (i : ℕ)
      → IsLog log
      → first log ≤ i
      → i ≤ final log + 1
      → delete_log_from_index_inclusive log i ≡ ok (take (i - first log) log)
  unfolding delete_log_from_index_inclusive
  delete_log_lem [] i h lo hi = absurd h
  delete_log_lem (x ∷ xs) i h lo hi =
      ground (arith, slice_prefix (i - x.index) (x ∷ xs) (omega arith), same x.index)
    where
      same : (n : ℕ) → n - n ≡ 0
      same n = omega arith

  -- The loop that collects the entries for a peer collects the rest of the log.
  append_log_items_lem :
      (n i : ℕ) (log : List (LogItem C))
      → IsLog log
      → first log ≤ i
      → i + n ≡ final log + 1
      → append_log_items n log i ≡ ok (drop (i - first log) log)
  unfolding append_log_items
  append_log_items_lem zero i [] h lo e = absurd h
  append_log_items_lem (suc n) i [] h lo e = absurd h
  append_log_items_lem zero i (x ∷ xs) h lo e = ground (arith, drop_all (i - x.index) (x ∷ xs))
  append_log_items_lem (suc n) i (x ∷ xs) h lo e =
      let (item, f, j, k) = get_log_item_at_index-found (x ∷ xs) i h lo (omega arith) in
      ground (
        arith,
        f,
        append_log_items_lem n (i + 1) (x ∷ xs) h (omega arith) (omega arith),
        drop-get (i - x.index) (x ∷ xs) k,
      )

  pub get_append_log_item_lem :
      (next : ℕ) (log : List (LogItem C))
      → IsLog log
      → first log ≤ next
      → next ≤ final log + 1
      → get_append_log_item log next ≡ ok (drop (next - first log) log)
  unfolding get_append_log_item
  get_append_log_item_lem next log h lo hi = ground (
    arith,
    get_last_log_index-IsLog log h,
    append_log_items_lem (final log + 1 - next) next log h lo (omega arith),
  )

  -- The slice from `i` to the last entry.
  pub get_log_item_slice_lem :
      (log : List (LogItem C)) (i : ℕ)
      → IsLog log
      → first log ≤ i
      → i ≤ final log
      → get_log_item_slice log i (final log + 1) ≡ ok (drop (i - first log) log)
  unfolding get_log_item_slice
  get_log_item_slice_lem [] i h lo hi = absurd h
  get_log_item_slice_lem (x ∷ xs) i h lo hi = ground (
    arith,
    slice_suffix (i - x.index) (x.index + length xs + 1 - x.index) (x ∷ xs) (omega arith)
        (omega arith),
  )

  pub log_contain_index_lem :
      (log : List (LogItem C)) (i : ℕ)
      → IsLog log
      → log_contain_index log i ≡ ok (leb (first log) i && leb i (final log))
  unfolding log_contain_index
  log_contain_index_lem log i h =
      ground (arith, get_dummy_log_index-IsLog log h, get_last_log_index-IsLog log h)
