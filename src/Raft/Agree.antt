-- ===== src/Raft/Agree.antt =====
-- A leader's call of src/raft/raft.go taken by a follower, and what the service is sent for it.
use cosi300a.Prelude.{
  ℕ, ◌+◌, ◌-◌, ◌≤◌, ◌<◌, ◌≡◌, ◌∙◌, sym, ap, refl, subst, true, some, List, [], ◌∷◌, ◌++◌, map,
  arith, ok, ltb, length, take, drop, get_elem?, drop-append, take-append, length-drop, length-take,
  Bool-cases, inl, inr, append-nil,
}
use cosi300a.Raft.Types.{LogItem, Raft, Labgob, IsCodec, AppendEntriesArgs, AppendEntriesReply}
use cosi300a.Raft.Log.{min_int}
use cosi300a.Raft.Append.{append_entries, append_args, follow_commit}
use cosi300a.Raft.Contiguous.{IsLog, first, final, Contiguous, IsLog-drop, Contiguous-take}
use cosi300a.Raft.Replicate.{replicated, IsLog-replace}
use cosi300a.Raft.Deliver.{message, followed, follow_commit_lem}
use cosi300a.Raft.Follow.{append_entries_lem, append_args_lem, replicated-success}

module _ {C : Type 0} where
  -- The parts of a log that took entries which go on from its index `next - 1`.
  replicated_parts :
      (next : ℕ) (log entries : List (LogItem C))
      → IsLog log
      → first log < next
      → next ≤ final log + 1
      → (drop (next - first log) (take (next - first log) log ++ entries) ≡ entries)
        × (take (next - first log) (take (next - first log) log ++ entries)
            ≡ take (next - first log) log)
  replicated_parts next [] entries h lo hi = absurd h
  replicated_parts next (x ∷ xs) entries h lo hi =
      let kept = take (next - x.index) (x ∷ xs) in
      let n : length kept ≡ next - x.index = omega (arith, length-take (next - x.index) (x ∷ xs)) in
      (drop-append (next - x.index) kept entries n, take-append (next - x.index) kept entries n)

  pub final-drop :
      (log : List (LogItem C)) (next : ℕ)
      → IsLog log
      → first log < next
      → next ≤ final log + 1
      → next + length (drop (next - first log) log) ≡ final log + 1
  final-drop [] next h lo hi = absurd h
  final-drop (x ∷ xs) next h lo hi = omega (arith, length-drop (next - x.index) (x ∷ xs))

module _ {C D B : Type 0} (g : Labgob C D B) (c : IsCodec g) where
  module _ (l f f' : Raft C D B) (next now : ℕ) (args : AppendEntriesArgs C)
      (reply : AppendEntriesReply) where
    taken :
        IsLog l.log
        → IsLog f.log
        → first l.log < next
        → next ≤ final l.log + 1
        → f.current_term ≤ args.term
        → args.prev_log_index + 1 ≡ next
        → args.entries ≡ drop (next - first l.log) l.log
        → append_entries g now args f ≡ ok (reply, f')
        → reply.success ≡ true
        → (f'.log ≡ take (next - first f.log) f.log ++ args.entries)
          × (first f.log < next)
          × (next ≤ final f.log + 1)
          × Contiguous (args.prev_log_index + 1) args.entries
    taken hl hf lo hi t p e answer s =
        let k : Contiguous (args.prev_log_index + 1) args.entries =
          rw (p, e) (IsLog-drop l.log next hl (omega arith)) in
        let (f'', made, log_eq, _) = append_entries_lem g now args f c hf k t in
        let ok_reply : (replicated args f.log).1 ≡ true = ground arith in
        let r = replicated-success args f.log ok_reply in
        (ground (arith, r.new, made, log_eq), omega (arith, r.lo), omega (arith, r.hi), k)

  -- A leader and a follower whose logs are logs, the follower in no later term: where the leader's
  -- call for a peer that lies within its log is taken with success, the follower's log agrees with
  -- the leader's from the peer's next index on, is as it was before that index, and ends where the
  -- leader's does, which is also the match that the leader will record.
  pub replicates :
      (l f f' : Raft C D B) (i next now : ℕ) (args : AppendEntriesArgs C)
      (reply : AppendEntriesReply)
      → IsLog l.log
      → IsLog f.log
      → get_elem? l.next_index i ≡ some next
      → first l.log < next
      → next ≤ final l.log + 1
      → f.current_term ≤ l.current_term
      → append_args l i ≡ ok (some args)
      → append_entries g now args f ≡ ok (reply, f')
      → reply.success ≡ true
      → (drop (next - first f.log) f'.log ≡ drop (next - first l.log) l.log)
        × (take (next - first f.log) f'.log ≡ take (next - first f.log) f.log)
        × (final f'.log ≡ final l.log)
        × (args.prev_log_index + length args.entries ≡ final l.log)
  replicates l f f' i next now args reply hl hf e lo hi t call answer s =
      let (item, found, made) = append_args_lem l i next hl e lo hi in
      let p : args.prev_log_index + 1 ≡ next = ground (arith, made, call) in
      let es : args.entries ≡ drop (next - first l.log) l.log = ground (arith, made, call) in
      let at : f.current_term ≤ args.term = ground (arith, made, call) in
      let (new, lo', hi', k) = taken l f f' next now args reply hl hf lo hi at p es answer s in
      let (dropped, kept) = replicated_parts next f.log args.entries hf lo' hi' in
      let len : next + length args.entries ≡ final l.log + 1 =
        rw es (final-drop l.log next hl lo hi) in
      let shaped =
        IsLog-replace args.prev_log_index f.log args.entries hf (omega arith) (omega arith) k in
      (rw new (dropped ∙ es), rw new kept, ground (arith, new, p, shaped.ends, len), omega arith)

module _ {C : Type 0} where
  -- The entries with the indices behind `a` up to `b`.
  abbrev pub between : List (LogItem C) → ℕ → ℕ → List (LogItem C)
  between log a b = take (b + 1 - (a + 1)) (drop (a + 1 - first log) log)

  pub between_lem :
      (log : List (LogItem C)) (a b : ℕ)
      → IsLog log
      → first log ≤ a
      → a ≤ b
      → b ≤ final log
      → Contiguous (a + 1) (between log a b) × (a + length (between log a b) ≡ b)
  between_lem [] a b h lo ab hi = absurd h
  between_lem (x ∷ xs) a b h lo ab hi =
      let rest = drop (a + 1 - x.index) (x ∷ xs) in
      (
        Contiguous-take (a + 1) (b + 1 - (a + 1)) rest
            (IsLog-drop (x ∷ xs) (a + 1) h (omega arith)),
        omega (arith, length-take (b + 1 - (a + 1)) rest, length-drop (a + 1 - x.index) (x ∷ xs)),
      )

  between-same : (log : List (LogItem C)) (a : ℕ) → between log a a ≡ []
  between-same log a =
      let none_left : a + 1 - (a + 1) ≡ 0 = omega arith in
      ap (λ n. take n (drop (a + 1 - first log) log)) none_left

module _ {C D B : Type 0} where
  -- A peer whose commit position lies within its log, and that hears what the leader has committed,
  -- does not panic, and sends the service the commands of its log from behind its commit position
  -- up to its new one, each once, in their order and with no gap, with the index and the term that
  -- they have there; the log stays as it is.
  pub follow_commit-delivers :
      (leader_commit : ℕ) (rf : Raft C D B)
      → IsLog rf.log
      → first rf.log ≤ rf.commit_index
      → rf.commit_index ≤ final rf.log
      → (rf' : Raft C D B) × (follow_commit leader_commit rf ≡ ok (tt, rf'))
        × (rf'.log ≡ rf.log)
        × (rf'.apply_ch
            ≡ rf.apply_ch ++ map message (between rf.log rf.commit_index rf'.commit_index))
        × Contiguous (rf.commit_index + 1) (between rf.log rf.commit_index rf'.commit_index)
        × (rf.commit_index + length (between rf.log rf.commit_index rf'.commit_index)
            ≡ rf'.commit_index)
  follow_commit-delivers leader_commit rf h lo hi =
      elim (Bool-cases (ltb rf.commit_index leader_commit)) [
        | inl more ↦
            let to = min_int (final rf.log) leader_commit in
            let (shape, n) =
              between_lem rf.log rf.commit_index to h lo (ground arith) (ground arith) in
            (
              followed leader_commit rf,
              follow_commit_lem leader_commit rf h,
              ground arith,
              ground arith,
              ground (arith, shape),
              ground (arith, n),
            )
        | inr same ↦
            let none_left = between-same rf.log rf.commit_index in
            (
              rf,
              ground (arith, follow_commit_lem leader_commit rf h),
              refl,
              sym (append-nil rf.apply_ch)
                  ∙ ap (λ ms. rf.apply_ch ++ map message ms) (sym none_left),
              subst (Contiguous (rf.commit_index + 1)) (sym none_left) tt,
              ap (λ ms. rf.commit_index + length ms) none_left ∙ omega arith,
            )
      ]
