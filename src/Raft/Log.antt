-- ===== src/Raft/Log.antt =====
-- The accessors of the log in src/raft/raft.go, on the slice itself. A slice expression or an index
-- out of range panics.
use cosi300a.Prelude.{
  ℕ, zero, suc, ◌+◌, ◌-◌, ◌/◌, Bool, true, false, ◌&&◌, ◌||◌, List, [], ◌∷◌, Result, ok, panic,
  or_panic, if◌then◌else◌, ltb, leb, nat_eq, length, get_elem?, set, last?, take, drop, sort_ints,
}
use cosi300a.Raft.Types.{LogItem}

abbrev pub min_int : ℕ → ℕ → ℕ
min_int a b = if leb a b then a else b

abbrev pub max_int : ℕ → ℕ → ℕ
max_int a b = if leb a b then b else a

abbrev pub is_more_updated : ℕ → ℕ → ℕ → ℕ → Bool
is_more_updated term1 index1 term2 index2 =
    if ltb term2 term1
    then true
    else if nat_eq term1 term2 && leb index2 index1
    then true
    else false

-- Go's `do` on values that may panic.
infixl 5 ◌>>=◌
abbrev pub ◌>>=◌ {ℓ κ} : {A : Type ℓ} {B : Type κ} → Result A → (A → Result B) → Result B
ok a >>= f = f a
panic >>= f = panic

-- `xs[i]`, `xs[i] = v` and `xs[i : j]` for `i` and `j` that are not negative. Go lets `j` go up to
-- the capacity; no call here goes past the length, at which this slice stops.
abbrev pub at {ℓ} : {A : Type ℓ} → List A → ℕ → Result A
at xs i = or_panic (get_elem? xs i)

abbrev pub assign {ℓ} : {A : Type ℓ} → List A → ℕ → A → Result (List A)
assign xs i v = if ltb i (length xs) then ok (set xs i v) else panic

abbrev pub slice {ℓ} : {A : Type ℓ} → List A → ℕ → ℕ → Result (List A)
slice xs i j = if leb i j && leb j (length xs) then ok (take (j - i) (drop i xs)) else panic

module _ {C : Type 0} where
  -- `rf.log[len(rf.log) - 1].Index`
  unfoldable pub get_last_log_index : List (LogItem C) → Result ℕ
  get_last_log_index log = do item ← or_panic (last? log); ok item.index

  unfoldable pub get_dummy_log_index : List (LogItem C) → Result ℕ
  get_dummy_log_index log = do item ← at log 0; ok item.index

  unfoldable pub get_log_item_at_index : List (LogItem C) → ℕ → Result (LogItem C)
  unfolding get_last_log_index get_dummy_log_index
  get_log_item_at_index log i = do
    head ← get_dummy_log_index log
    last ← get_last_log_index log
    if ltb i head || ltb last i then panic else at log (i - head)

  unfoldable pub get_last_log_term : List (LogItem C) → Result ℕ
  unfolding get_last_log_index get_log_item_at_index
  get_last_log_term log = do
    last ← get_last_log_index log
    item ← get_log_item_at_index log last
    ok item.term

  unfoldable pub log_contain_index : List (LogItem C) → ℕ → Result Bool
  unfolding get_last_log_index get_dummy_log_index
  log_contain_index log i = do
    head ← get_dummy_log_index log
    last ← get_last_log_index log
    ok (leb head i && leb i last)

  -- `rf.log[i - head : j - head + 1]`, for `j1 = j + 1`; a bound below `head` is negative.
  unfoldable pub get_log_item_slice : List (LogItem C) → ℕ → ℕ → Result (List (LogItem C))
  unfolding get_dummy_log_index
  get_log_item_slice log i j1 = do
    head ← get_dummy_log_index log
    if ltb i head || ltb j1 head then panic else slice log (i - head) (j1 - head)

  -- `make` of a negative length panics; the slice that is copied has that length.
  unfoldable pub delete_log_from_index_inclusive : List (LogItem C) → ℕ → Result (List (LogItem C))
  unfolding get_dummy_log_index get_log_item_slice
  delete_log_from_index_inclusive log i = do
    head ← get_dummy_log_index log
    if ltb i head then panic else get_log_item_slice log head i

  -- `for i := next; i <= last; i++ { append(item at i) }`, the rounds left given.
  unfoldable pub append_log_items : ℕ → List (LogItem C) → ℕ → Result (List (LogItem C))
  append_log_items zero log i = ok []
  append_log_items (suc n) log i = do
    item ← get_log_item_at_index log i
    rest ← append_log_items n log (i + 1)
    ok (item ∷ rest)

  unfoldable pub get_append_log_item : List (LogItem C) → ℕ → Result (List (LogItem C))
  unfolding append_log_items get_last_log_index
  get_append_log_item log next = do
    last ← get_last_log_index log
    append_log_items (last + 1 - next) log next

abbrev pub get_majority_count : ℕ → ℕ
get_majority_count peers = peers / 2 + 1

-- `match[len(match)/2]` of the sorted copy.
unfoldable pub find_match : List ℕ → Result ℕ
unfolding sort_ints
find_match match_index = do let sorted = sort_ints match_index; at sorted (length match_index / 2)
