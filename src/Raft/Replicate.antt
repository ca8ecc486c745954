-- ===== src/Raft/Replicate.antt =====
-- What `AppendEntries` of src/raft/raft.go does to the log, on every branch.
use cosi300a.Prelude.{
  ℕ, suc, ◌+◌, ◌-◌, ◌≤◌, ◌≡◌, refl, Bool, true, false, ◌||◌, Option, none, some, List, [], ◌∷◌,
  ◌++◌, arith, Result, ok, ltb, nat_eq, if◌then◌else◌, length, take, get_elem?, Bool-cases, inl,
  inr, length-take, length-append, sym, ◌&&◌,
}
use cosi300a.Raft.Types.{LogItem, Raft, Labgob, IsCodec, AppendEntriesArgs, AppendEntriesReply}
use cosi300a.Raft.Log.{min_int, get_log_item_at_index}
use cosi300a.Raft.Persister.{save_raft_state}
use cosi300a.Raft.Node.{persist, refresh_timestamp}
use cosi300a.Raft.Append.{append_in_term}
use cosi300a.Raft.Contiguous.{
  IsLog, first, final, Contiguous, Contiguous-append, Contiguous-take, Contiguous-subst,
}
use cosi300a.Raft.Accessors.{
  delete_log_lem, get_log_item_at_index-found, get_dummy_log_index-IsLog, get_last_log_index-IsLog,
}
use cosi300a.Raft.Deliver.{followed, follow_commit_lem}
use cosi300a.Raft.Run.Defs.{persistent}

module _ {C : Type 0} where
  abbrev matched :
      AppendEntriesArgs C → List (LogItem C) → Option (LogItem C) → List (LogItem C) × Bool
  matched args log none = (log, false)
  matched args log (some previous) =
      if nat_eq previous.term args.prev_log_term
      then (take (args.prev_log_index + 1 - first log) log ++ args.entries, true)
      else (take (args.prev_log_index - first log) log, false)

  -- What the leader's entries make of a log: no change where the log does not reach the entry before
  -- them; that entry and all behind it are dropped where its term is another; and otherwise all behind
  -- it is replaced by the leader's entries.
  abbrev pub replicated : AppendEntriesArgs C → List (LogItem C) → List (LogItem C) × Bool
  replicated args log =
      if ltb (final log) args.prev_log_index || ltb args.prev_log_index (first log)
      then (log, false)
      else matched args log (get_elem? log (args.prev_log_index - first log))

module _ {C D B : Type 0} (g : Labgob C D B) (c : IsCodec g) where
  pub persist_lem :
      (rf : Raft C D B)
      → (b : B) × (persist g rf ≡ ok (tt, record rf { persister = save_raft_state b rf.persister }))
  unfolding persist
  persist_lem rf = let (b, e) = c.state_encodes (persistent rf) in (b, ground (arith, e))

module _ {C : Type 0} where
  -- The entries up to `prev` with entries that go on from there are a log, with the same first index.
  pub IsLog-replace :
      (prev : ℕ) (log entries : List (LogItem C))
      → IsLog log
      → first log ≤ prev
      → prev ≤ final log
      → Contiguous (prev + 1) entries
      → record {
        shape : IsLog (take (prev + 1 - first log) log ++ entries);
        starts : first (take (prev + 1 - first log) log ++ entries) ≡ first log;
        ends : final (take (prev + 1 - first log) log ++ entries) ≡ prev + length entries;
      }
  IsLog-replace prev [] entries h lo hi k = absurd h
  IsLog-replace prev (x ∷ xs) entries h lo hi k =
      let e : prev + 1 - x.index ≡ suc (prev - x.index) = omega arith in
      let n : x.index + 1 + length (take (prev - x.index) xs) ≡ prev + 1 =
        omega (arith, length-take (prev - x.index) xs) in
      rw e (record {
        shape =
            Contiguous-append (x.index + 1) (take (prev - x.index) xs) entries
              (Contiguous-take (x.index + 1) (prev - x.index) xs h)
              (Contiguous-subst entries (sym n) k);
        starts = refl;
        ends = omega (arith, length-append (take (prev - x.index) xs) entries, n);
      })

-- The commit position that goes with a new log.
abbrev pub committed_with : {C : Type 0} → ℕ → List (LogItem C) × Bool → ℕ → ℕ
committed_with leader_commit (log, success) commit =
    if success && ltb commit leader_commit then min_int (final log) leader_commit else commit

module _ {C D B : Type 0} (g : Labgob C D B) where
  -- A reply in `term`, and a state with the log and the commit position that go with `spec`.
  abbrev pub Outcome :
      Result (AppendEntriesReply × Raft C D B) → ℕ → ℕ → List (LogItem C) × Bool → ℕ → Type 0
  Outcome r term leader_commit spec commit =
      (rf' : Raft C D B) × (r ≡ ok (record { term = term; success = spec.1 }, rf'))
      × (rf'.log ≡ spec.0)
      × (rf'.commit_index ≡ committed_with leader_commit spec commit)

  module _ (c : IsCodec g) (now : ℕ) (args : AppendEntriesArgs C) (rf : Raft C D B)
      (h : IsLog rf.log) (k : Contiguous (args.prev_log_index + 1) args.entries) where
    out_of_range :
        (ltb (final rf.log) args.prev_log_index || ltb args.prev_log_index (first rf.log)) ≡ true
        → Outcome
            (append_in_term g now args rf)
            rf.current_term
            args.leader_commit
            (rf.log, false)
            rf.commit_index
    unfolding append_in_term
    out_of_range out =
        let (b, p) = persist_lem g c (refresh_timestamp now rf) in
        (
          record (refresh_timestamp now rf) { persister = save_raft_state b rf.persister },
          ground (arith, p, get_last_log_index-IsLog rf.log h, get_dummy_log_index-IsLog rf.log h),
          refl,
          refl,
        )

    module _ (lo : first rf.log ≤ args.prev_log_index) (hi : args.prev_log_index ≤ final rf.log)
        (previous : LogItem C)
        (found : get_log_item_at_index rf.log args.prev_log_index ≡ ok previous) where
      conflict :
          nat_eq previous.term args.prev_log_term ≡ false
          → Outcome
              (append_in_term g now args rf)
              rf.current_term
              args.leader_commit
              (take (args.prev_log_index - first rf.log) rf.log, false)
              rf.commit_index
      unfolding append_in_term
      conflict ne =
          let cut = record (refresh_timestamp now rf) {
            log = take (args.prev_log_index - first rf.log) rf.log;
          } in
          let (b, p) = persist_lem g c cut in
          (
            record cut { persister = save_raft_state b rf.persister },
            ground (
              arith,
              p,
              get_last_log_index-IsLog rf.log h,
              get_dummy_log_index-IsLog rf.log h,
              found,
              delete_log_lem rf.log args.prev_log_index h,
            ),
            refl,
            refl,
          )

      agreement :
          nat_eq previous.term args.prev_log_term ≡ true
          → Outcome
              (append_in_term g now args rf)
              rf.current_term
              args.leader_commit
              (take (args.prev_log_index + 1 - first rf.log) rf.log ++ args.entries, true)
              rf.commit_index
      unfolding append_in_term
      agreement eq =
          let new = take (args.prev_log_index + 1 - first rf.log) rf.log ++ args.entries in
          let moved = record (refresh_timestamp now rf) { log = new } in
          let followed_rf = followed args.leader_commit moved in
          let (b, p) = persist_lem g c followed_rf in
          let shaped = IsLog-replace args.prev_log_index rf.log args.entries h lo hi k in
          (
            record followed_rf { persister = save_raft_state b followed_rf.persister },
            ground (
              arith,
              p,
              get_last_log_index-IsLog rf.log h,
              get_dummy_log_index-IsLog rf.log h,
              found,
              delete_log_lem rf.log (args.prev_log_index + 1) h,
              follow_commit_lem args.leader_commit moved shaped.shape,
            ),
            ground arith,
            ground arith,
          )

    -- What `AppendEntries` does once the term is settled.
    pub append_in_term_lem :
        Outcome
          (append_in_term g now args rf)
          rf.current_term
          args.leader_commit
          (replicated args rf.log)
          rf.commit_index
    append_in_term_lem =
        elim (Bool-cases
          (ltb (final rf.log) args.prev_log_index || ltb args.prev_log_index (first rf.log))) [
            | inl out ↦ rw out (out_of_range out)
            | inr within ↦
                let (item, e, _, f) =
                  get_log_item_at_index-found rf.log args.prev_log_index h (ground arith)
                    (ground arith) in
                elim (Bool-cases (nat_eq item.term args.prev_log_term)) [
                  | inl eq ↦ rw (within, f, eq) (agreement (ground arith) (ground arith) item e eq)
                  | inr ne ↦ rw (within, f, ne) (conflict (ground arith) (ground arith) item e ne)
                ]
          ]
