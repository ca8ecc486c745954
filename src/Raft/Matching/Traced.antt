-- ===== src/Raft/Matching/Traced.antt =====
-- The operations of src/raft/raft.go that create no entry keep what is known of the entries in the log
-- and of those that the service was sent.
use cosi300a.Prelude.{
  ℕ, zero, suc, ◌+◌, ◌-◌, ◌<◌, ◌≡◌, refl, ap, ◌∙◌, some, List, [], ◌∷◌, ◌++◌, arith, ok, After,
  Result-cases, nat_eq, Bool-cases, inl, inr, All, All-append, take,
}
use cosi300a.Raft.Types.{
  command, LogItem, ApplyMsg, entry, snapshot, Raft, Labgob, AppendEntriesArgs,
}
use cosi300a.Raft.Log.{get_log_item_at_index, get_dummy_log_index, max_int}
use cosi300a.Raft.Append.{
  send_items, send_commit_message, follow_commit, accept_reply, back_off, append_in_term,
}
use cosi300a.Raft.Node.{refresh_timestamp}
use cosi300a.Raft.Contiguous.{first}
use cosi300a.Raft.Accessors.{
  get_log_item_at_index-ok, delete_log_lem, get_last_log_index-IsLog, get_dummy_log_index-IsLog,
}
use cosi300a.Raft.Run.Effects.{sent}
use cosi300a.Raft.Matching.Chain.{
  Created, Chain, IsChained, IsChained-at, found-IsLog, IsChained-replace, IsChained-take,
  Chain-subst,
}

-- A message with an entry carries one that was created.
module _ {C D : Type 0} (created : Created C) where
  abbrev pub IsSent : ApplyMsg C D → Type 0
  IsSent (entry x index term) =
      (c : C) × (p : ℕ) × (x ≡ command c) × (created term index ≡ some (c, p))
  IsSent (snapshot bytes index term) = Unit

pub record IsTraced {C D B : Type 0} (created : Created C) (rf : Raft C D B) : Type 0 where
  pub log : IsChained created rf.log
  pub sent : All (IsSent created) rf.apply_ch

dummy-first :
    {C : Type 0} (log : List (LogItem C)) (d : ℕ) → get_dummy_log_index log ≡ ok d → d ≡ first log
unfolding get_dummy_log_index
dummy-first [] d e = ground arith
dummy-first (x ∷ xs) d e = ground (arith, e)

module _ {C D B : Type 0} (created : Created C) where
  sent-IsTraced :
      (item : LogItem C) (i : ℕ) (rf : Raft C D B)
      → IsTraced created rf
      → first rf.log < i
      → get_log_item_at_index rf.log i ≡ ok item
      → IsTraced created (sent item rf)
  sent-IsTraced item i rf h lt e =
      let (p, c, _, a, k) = IsChained-at created rf.log i h.log lt e in
      let at =
        (get_log_item_at_index-ok rf.log i item (found-IsLog created rf.log i h.log e) e).at in
      record {
        log = h.log;
        sent =
            All-append (IsSent created) rf.apply_ch (entry item.command item.index item.term ∷ [])
              h.sent ((c, p.term, a, ap (λ j. created item.term j) at ∙ k), tt);
      }

  send_items-IsTraced :
      (n i : ℕ) (rf : Raft C D B)
      → IsTraced created rf
      → first rf.log < i
      → After (IsTraced created) (send_items n i rf)
  unfolding send_items
  send_items-IsTraced zero i rf h lt = h
  send_items-IsTraced (suc n) i rf h lt =
      Result-cases (get_log_item_at_index rf.log i)
        (λ item e.
          let next =
            send_items-IsTraced n (i + 1) (sent item rf) (sent-IsTraced item i rf h lt e)
              (omega arith) in
          ground (arith, e, next))
        (λ e. ground (arith, e))

  send_commit_message-IsTraced :
      (from to : ℕ) (rf : Raft C D B)
      → IsTraced created rf
      → After (IsTraced created) (send_commit_message from to rf)
  unfolding send_commit_message
  send_commit_message-IsTraced from to rf h =
      Result-cases (get_dummy_log_index rf.log)
        (λ d e.
          let i = max_int from (d + 1) in
          let at : d ≡ first rf.log = dummy-first rf.log d e in
          let rest = send_items-IsTraced (to + 1 - i) i rf h (ground arith) in
          ground (arith, e, rest))
        (λ e. ground (arith, e))

  follow_commit-IsTraced :
      (leader_commit : ℕ) (rf : Raft C D B)
      → IsTraced created rf
      → After (IsTraced created) (follow_commit leader_commit rf)
  unfolding follow_commit
  follow_commit-IsTraced leader_commit rf h = grind (arith, send_commit_message-IsTraced)

  pub accept_reply-IsTraced :
      (j : ℕ) (args : AppendEntriesArgs C) (rf : Raft C D B)
      → IsTraced created rf
      → After (IsTraced created) (accept_reply j args rf)
  unfolding accept_reply
  accept_reply-IsTraced j args rf h = grind (arith, send_commit_message-IsTraced)

  pub back_off-IsTraced :
      (j : ℕ) (args : AppendEntriesArgs C) (rf : Raft C D B)
      → IsTraced created rf
      → After (IsTraced created) (back_off j args rf)
  unfolding back_off
  back_off-IsTraced j args rf h = ground arith

  pub append_in_term-IsTraced :
      (g : Labgob C D B) (now : ℕ) (args : AppendEntriesArgs C) (rf : Raft C D B)
      → IsTraced created rf
      → Chain created args.prev_log_term (args.prev_log_index + 1) args.entries
      → After (IsTraced created) (append_in_term g now args rf)
  unfolding append_in_term
  append_in_term-IsTraced g now args rf h k =
      Result-cases (get_log_item_at_index rf.log args.prev_log_index)
        (λ item e.
          let shape = found-IsLog created rf.log args.prev_log_index h.log e in
          let here = get_log_item_at_index-ok rf.log args.prev_log_index item shape e in
          let kept =
            delete_log_lem rf.log (args.prev_log_index + 1) shape (omega (arith, here.lo))
              (omega (arith, here.hi)) in
          let cut =
            delete_log_lem rf.log args.prev_log_index shape here.lo (omega (arith, here.hi)) in
          let new = take (args.prev_log_index + 1 - first rf.log) rf.log ++ args.entries in
          elim (Bool-cases (nat_eq item.term args.prev_log_term)) [
            | inl eq ↦
                let chained : IsChained created new =
                  IsChained-replace created rf.log args.entries args.prev_log_index h.log e
                    (Chain-subst created args.entries (ground (arith, eq)) refl k) in
                let moved = record (refresh_timestamp now rf) { log = new } in
                let traced : IsTraced created moved = record { log = chained; sent = h.sent } in
                ground (
                  arith,
                  e,
                  eq,
                  kept,
                  get_last_log_index-IsLog rf.log shape,
                  get_dummy_log_index-IsLog rf.log shape,
                  follow_commit-IsTraced args.leader_commit moved traced,
                  h,
                )
            | inr ne ↦
                let chained =
                  IsChained-take created (args.prev_log_index - first rf.log) rf.log h.log in
                ground (
                  arith,
                  e,
                  ne,
                  cut,
                  get_last_log_index-IsLog rf.log shape,
                  get_dummy_log_index-IsLog rf.log shape,
                  chained,
                  h,
                )
          ])
        (λ e. ground (arith, e, h))
