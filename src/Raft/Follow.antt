-- ===== src/Raft/Follow.antt =====
-- `AppendEntries` of src/raft/raft.go as a whole, and a leader's call answered by a follower.
use cosi300a.Prelude.{
  ℕ, zero, suc, ◌+◌, ◌-◌, ◌≤◌, ◌<◌, ◌≡◌, ◌≢◌, refl, true, false, none, some, List, [], ◌∷◌, ◌++◌,
  arith, ok, ltb, take, drop, get_elem?, Bool-cases, inl, inr,
}
use cosi300a.Raft.Types.{LogItem, Raft, Labgob, IsCodec, AppendEntriesArgs}
use cosi300a.Raft.Log.{get_log_item_at_index}
use cosi300a.Raft.Node.{become_follower}
use cosi300a.Raft.Append.{append_entries, append_args}
use cosi300a.Raft.Contiguous.{IsLog, first, final, Contiguous, Contiguous-take}
use cosi300a.Raft.Accessors.{
  get_log_item_at_index-found, get_dummy_log_index-IsLog, get_append_log_item_lem,
}
use cosi300a.Raft.Replicate.{IsLog-replace, Outcome, replicated, append_in_term_lem}

module _ {C D B : Type 0} (g : Labgob C D B) where
  -- A call of an earlier term is refused with the peer's term, and changes nothing.
  pub append_entries-stale :
      (now : ℕ) (args : AppendEntriesArgs C) (rf : Raft C D B)
      → args.term < rf.current_term
      → append_entries g now args rf ≡ ok (record { term = rf.current_term; success = false }, rf)
  unfolding append_entries
  append_entries-stale now args rf h = ground arith

  -- A call of the current or a later term, with contiguous entries, to a peer whose log is a log is
  -- answered in the call's term, on every branch, and never panics: out of range the log stays; on
  -- a conflict it is cut before the entry in conflict; otherwise all behind the entry before the
  -- call's entries is replaced by them, and what the leader has committed is committed up to the
  -- new last entry.
  pub append_entries_lem :
      (now : ℕ) (args : AppendEntriesArgs C) (rf : Raft C D B)
      → IsCodec g
      → IsLog rf.log
      → Contiguous (args.prev_log_index + 1) args.entries
      → rf.current_term ≤ args.term
      → Outcome g
          (append_entries g now args rf)
          args.term
          args.leader_commit
          (replicated args rf.log)
          rf.commit_index
  unfolding append_entries
  append_entries_lem now args rf c h k t = elim (Bool-cases (ltb rf.current_term args.term)) [
    | inl newer ↦
        let (rf', e, l, m) =
          append_in_term_lem g c now args (become_follower now args.term rf) h k in
        (rf', ground (arith, e, newer), l, m)
    | inr same ↦
        let (rf', e, l, m) = append_in_term_lem g c now args rf h k in
        (rf', ground (arith, e, same), l, m)
  ]

module _ {C D B : Type 0} where
  -- For a peer whose next index lies within a leader's log, the call carries the index before it,
  -- that entry's term, and all the entries from it on.
  pub append_args_lem :
      (rf : Raft C D B) (i next : ℕ)
      → IsLog rf.log
      → get_elem? rf.next_index i ≡ some next
      → first rf.log < next
      → next ≤ final rf.log + 1
      → (item : LogItem C) × (get_log_item_at_index rf.log (next - 1) ≡ ok item)
        × (append_args rf i
            ≡ ok (
                some (record {
                  term = rf.current_term;
                  leader_id = rf.me;
                  prev_log_index = next - 1;
                  prev_log_term = item.term;
                  entries = drop (next - first rf.log) rf.log;
                  leader_commit = rf.commit_index;
                })))
  unfolding append_args
  append_args_lem rf i next h e lo hi =
      let (item, f, _, _) =
        get_log_item_at_index-found rf.log (next - 1) h (omega arith) (omega arith) in
      let p : next - 1 + 1 ≡ next = omega arith in
      (
        item,
        f,
        ground (
          arith,
          e,
          f,
          p,
          get_dummy_log_index-IsLog rf.log h,
          get_append_log_item_lem (next - 1 + 1) rf.log h,
        ),
      )

  -- A peer that lies at or before the dummy is sent none: it needs a snapshot.
  pub append_args-none :
      (rf : Raft C D B) (i next : ℕ)
      → IsLog rf.log
      → get_elem? rf.next_index i ≡ some next
      → next ≤ first rf.log
      → append_args rf i ≡ ok none
  unfolding append_args
  append_args-none rf i next h e lo = ground (arith, e, get_dummy_log_index-IsLog rf.log h)

module _ {C : Type 0} where
  -- A log that took the entries had the entry before them.
  pub replicated-success :
      (args : AppendEntriesArgs C) (log : List (LogItem C))
      → (replicated args log).1 ≡ true
      → record {
        lo : first log ≤ args.prev_log_index;
        hi : args.prev_log_index ≤ final log;
        new :
            (replicated args log).0
            ≡ take (args.prev_log_index + 1 - first log) log ++ args.entries;
      }
  replicated-success args log s = ground arith

  IsLog-take :
      (k : ℕ) (log : List (LogItem C))
      → IsLog log
      → 0 < k
      → IsLog (take k log) × (first (take k log) ≡ first log)
  IsLog-take k [] h lt = absurd h
  IsLog-take zero (x ∷ xs) h lt = absurd (omega arith)
  IsLog-take (suc k) (x ∷ xs) h lt = (Contiguous-take (x.index + 1) k xs h, refl)

  -- Where it did not, it is as it was or cut behind its first entry.
  replicated-fails :
      (args : AppendEntriesArgs C) (log : List (LogItem C))
      → IsLog log
      → (replicated args log).1 ≡ false
      → args.prev_log_index ≢ first log
      → IsLog (replicated args log).0 × (first (replicated args log).0 ≡ first log)
  replicated-fails args log h f ne =
      ground (arith, h, IsLog-take (args.prev_log_index - first log) log h)

  -- The log that `AppendEntries` leaves is a log with the same first entry, unless the entry in conflict
  -- is that first entry.
  pub replicated-IsLog :
      (args : AppendEntriesArgs C) (log : List (LogItem C))
      → IsLog log
      → Contiguous (args.prev_log_index + 1) args.entries
      → (args.prev_log_index ≡ first log → (replicated args log).1 ≡ true)
      → IsLog (replicated args log).0 × (first (replicated args log).0 ≡ first log)
  replicated-IsLog args log h k keep = elim (Bool-cases (replicated args log).1) [
    | inl s ↦
        let r = replicated-success args log s in
        let shaped = IsLog-replace args.prev_log_index log args.entries h r.lo r.hi k in
        rw r.new (shaped.shape, shaped.starts)
    | inr f ↦ replicated-fails args log h f (λ e. ground (arith, keep e))
  ]
