-- ===== src/Raft/Rounds/Exchange.antt =====
-- One round of `startAppend` of src/raft/raft.go for one peer, and what it does to the leader and to
-- the peer.
use cosi300a.Prelude.{
  ℕ, zero, suc, ◌+◌, ◌-◌, ◌≤◌, ◌<◌, ◌≡◌, ◌≢◌, refl, Bool, true, false, none, some, List, [], ◌∷◌,
  arith, Result, ok, panic, ltb, length, set, get_elem?, take, All, After, count_ge, All_mono,
  Bool-cases, inl, inr,
}
use cosi300a.Raft.Types.{Raft, Labgob, LogItem, AppendEntriesArgs, AppendEntriesReply}
use cosi300a.Raft.Log.{find_match, max_int, get_dummy_log_index}
use cosi300a.Raft.Node.{become_follower, refresh_timestamp}
use cosi300a.Raft.Append.{append_args, append_entries, handle_append_reply, back_off}
use cosi300a.Raft.Contiguous.{IsLog, first, final}
use cosi300a.Raft.Commit.{new_match, new_next, advanced_at}
use cosi300a.Raft.Majority.{find_match-half}
use cosi300a.Raft.Cluster.Quiet.{append_in_term-KeepsRole}

module _ {C D B : Type 0} (g : Labgob C D B) where
  -- Whether the peer took the entries, the leader and the peer. A peer that is to have a snapshot is
  -- sent no call.
  unfoldable pub exchange :
      ℕ → ℕ → Raft C D B → Raft C D B → Result (Bool × Raft C D B × Raft C D B)
  exchange now j l f = elim (append_args l j) [
    | panic ↦ panic
    | ok none ↦ ok (false, l, f)
    | ok (some args) ↦ elim (append_entries g now args f) [
      | panic ↦ panic
      | ok (reply, f') ↦ elim (handle_append_reply g now j args reply l) [
        | panic ↦ panic
        | ok (done, l') ↦ ok (reply.success, l', f')
      ]
    ]
  ]

  -- Rounds until the peer takes the entries, or until there are none left.
  unfoldable pub exchanges :
      ℕ → ℕ → ℕ → Raft C D B → Raft C D B → Result (Bool × Raft C D B × Raft C D B)
  unfolding exchange
  exchanges zero now j l f = ok (false, l, f)
  exchanges (suc n) now j l f = elim (exchange now j l f) [
    | panic ↦ panic
    | ok (true, l', f') ↦ ok (true, l', f')
    | ok (false, l', f') ↦ exchanges n now j l' f'
  ]

module _ {C D B : Type 0} (g : Labgob C D B) (now j : ℕ) (l f l' f' : Raft C D B)
    (args : AppendEntriesArgs C) (reply : AppendEntriesReply) where
  pub exchange_ran :
      append_args l j ≡ ok (some args)
      → append_entries g now args f ≡ ok (reply, f')
      → handle_append_reply g now j args reply l ≡ ok (tt, l')
      → exchange g now j l f ≡ ok (reply.success, l', f')
  unfolding exchange
  exchange_ran call answer heard = ground (arith, call, answer, heard)

module _ {C D B : Type 0} (g : Labgob C D B) (now j : ℕ) (l : Raft C D B)
    (args : AppendEntriesArgs C) (reply : AppendEntriesReply) where
  -- A refusal, where the entry before the call's entries is not the first of the log.
  pub backs_off :
      (dummy : ℕ)
      → reply.term ≡ l.current_term
      → reply.success ≡ false
      → get_dummy_log_index l.log ≡ ok dummy
      → args.prev_log_index ≢ dummy
      → j < length l.next_index
      → handle_append_reply g now j args reply l
        ≡ ok (
          tt,
          record (refresh_timestamp now l) {
            next_index =
                set l.next_index j
                  (max_int (args.prev_log_index - length args.entries) (dummy + 1));
          },
        )
  unfolding handle_append_reply back_off
  backs_off dummy term s at ne room = ground arith

pub answered_term :
    {C D B : Type 0} (g : Labgob C D B) (now : ℕ) (args : AppendEntriesArgs C) (f : Raft C D B)
    → f.current_term ≤ args.term
    → After (λ (b : Raft C D B). b.current_term ≡ args.term) (append_entries g now args f)
unfolding append_entries
answered_term g now args f h = ground (
  arith,
  h,
  append_in_term-KeepsRole g now f args,
  append_in_term-KeepsRole g now (become_follower now args.term f) args,
)

module _ {C D B : Type 0} (j : ℕ) (args : AppendEntriesArgs C) (l : Raft C D B) (now m t : ℕ) where
  pub advanced_next :
      get_elem? (advanced_at j args l now m t).next_index j ≡ get_elem? (new_next j args l) j
  advanced_next = ground arith

  pub advanced_match :
      get_elem? (advanced_at j args l now m t).match_index j ≡ get_elem? (new_match j args l) j
  advanced_match = ground arith

-- The matches of a leader lie within its log, and so does its commit position.
pub record IsBounded {C D B : Type 0} (l : Raft C D B) : Type 0 where
  pub matches : All (λ m. m ≤ final l.log) l.match_index
  pub committed : l.commit_index ≤ final l.log

-- A leader and a follower that is in no later term, has the same first entry, up to its command, and
-- is to be sent the leader's log from `next` on.
pub record IsPair {C D B : Type 0} (j next : ℕ) (l f : Raft C D B) (x y : LogItem C) : Type 0 where
  pub leads : IsLog l.log
  pub follows : IsLog f.log
  pub term : f.current_term ≤ l.current_term
  pub head : get_elem? l.log 0 ≡ some x
  pub head' : get_elem? f.log 0 ≡ some y
  pub head_index : x.index ≡ y.index
  pub head_term : x.term ≡ y.term
  pub next_at : get_elem? l.next_index j ≡ some next
  pub lo : first l.log < next
  pub hi : next ≤ final l.log + 1
  pub next_room : j < length l.next_index
  pub match_room : j < length l.match_index
  pub bounded : IsBounded l

count_ge-none : (m : ℕ) (xs : List ℕ) → All (λ x. x < m) xs → count_ge m xs ≡ 0
count_ge-none m [] h = refl
count_ge-none m (x ∷ xs) h = ground (arith, h.0, count_ge-none m xs h.1)

-- The match that is found is at most what all the matches are at most.
pub find_match-bound :
    (b m : ℕ) (xs : List ℕ) → All (λ x. x ≤ b) xs → find_match xs ≡ ok m → 0 < length xs → m ≤ b
find_match-bound b m xs h e lt = elim (Bool-cases (ltb b m)) [
  | inr within ↦ ground arith
  | inl above ↦
      let nothing =
        count_ge-none m xs
          (All_mono (λ x. x ≤ b) (λ x. x < m) xs (λ x le. omega (arith, le, above_b above)) h) in
      absurd (omega (arith, nothing, find_match-half xs m e, lt))
]
  where
    above_b : ltb b m ≡ true → b < m
    above_b above = ground arith

pub first-head :
    {C : Type 0} (log : List (LogItem C)) {x : LogItem C}
    → get_elem? log 0 ≡ some x
    → first log ≡ x.index
first-head [] e = cc
first-head (y ∷ ys) e = ground (arith, e)

pub take-head :
    {A : Type 0} (k : ℕ) (xs : List A) → 0 < k → get_elem? (take k xs) 0 ≡ get_elem? xs 0
take-head zero xs lt = absurd (omega arith)
take-head (suc k) [] lt = refl
take-head (suc k) (x ∷ xs) lt = refl

pub first-final : {C : Type 0} (log : List (LogItem C)) → IsLog log → first log ≤ final log
first-final [] h = absurd h
first-final (x ∷ xs) h = omega arith

pub All-set : (P : ℕ → Type 0) (xs : List ℕ) (j v : ℕ) → All P xs → P v → All P (set xs j v)
All-set P [] j v h p = tt
All-set P (x ∷ xs) zero v h p = (p, h.1)
All-set P (x ∷ xs) (suc j) v h p = (h.0, All-set P xs j v h.1 p)
