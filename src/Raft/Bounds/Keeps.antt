-- ===== src/Raft/Bounds/Keeps.antt =====
-- What the operations of a leader of src/raft/raft.go do to its matches and its commit position.
use cosi300a.Prelude.{
  ℕ, ◌+◌, ◌-◌, ◌≤◌, ◌≡◌, ◌⊎◌, inl, inr, some, List, [], ◌∷◌, ◌++◌, arith, ok, All, All_mono,
  Result-cases, After, refl, ap, pos_part, drop, After-mono, subst, sym, ltb, leb, ◌&&◌, length,
  length-set, Bool-cases, set,
}
use cosi300a.Raft.Types.{Raft, Labgob, AppendEntriesArgs, AppendEntriesReply, LogItem, command}
use cosi300a.Raft.Log.{get_log_item_at_index}
use cosi300a.Raft.Node.{start, refresh_timestamp}
use cosi300a.Raft.Append.{
  get_previous_index_for_server, args_from, append_args, handle_append_reply, accept_reply,
  back_off,
}
use cosi300a.Raft.Snapshot.{save_snapshot}
use cosi300a.Raft.Contiguous.{IsLog, first, final, final-append, Contiguous-append}
use cosi300a.Raft.Accessors.{
  get_log_item_at_index-ok, get_append_log_item_lem, get_last_log_index-IsLog,
  get_log_item_slice_lem, log_contain_index_lem, get_last_log_term-IsLog,
}
use cosi300a.Raft.Agree.{final-drop}
use cosi300a.Raft.Compact.{IsLog-cut}
use cosi300a.Raft.Commit.{new_match, accept_reply_lem, advanced_at}
use cosi300a.Raft.Majority.{find_match-total}
use cosi300a.Raft.Rounds.Exchange.{IsBounded, find_match-bound, All-set}

abbrev pub IsWithin : {C D B : Type 0} → Raft C D B → AppendEntriesArgs C → Type 0
IsWithin l args = args.prev_log_index + length args.entries ≤ final l.log

IsLog-append :
    {C : Type 0} (log : List (LogItem C)) (item : LogItem C)
    → IsLog log
    → item.index ≡ final log + 1
    → IsLog (log ++ item ∷ [])
IsLog-append [] item h e = absurd h
IsLog-append (x ∷ xs) item h e =
    Contiguous-append (x.index + 1) xs (item ∷ []) h (omega (arith, e), tt)

IsBounded-by :
    {C D B : Type 0} (l : Raft C D B) (log : List (LogItem C)) (matches : List ℕ)
    → l.log ≡ log
    → l.match_index ≡ matches
    → All (λ v. v ≤ final log) matches
    → l.commit_index ≤ final log
    → IsBounded l
IsBounded-by l log matches el em h k = record {
  matches =
      subst (λ e. All (λ v. v ≤ final e) l.match_index) (sym el)
        (subst (All (λ v. v ≤ final log)) (sym em) h);
  committed = omega (arith, k, ap final el);
}

module _ {C D B : Type 0} (j : ℕ) (args : AppendEntriesArgs C) (l : Raft C D B) (h : IsLog l.log)
    (k : IsBounded l) (w : IsWithin l args) (now : ℕ) where
  abbrev pub BoundedLike : Raft C D B → Type 0
  BoundedLike l' = (l'.log ≡ l.log) × IsBounded l'

  accept_reply-IsBounded : After BoundedLike (accept_reply j args (refresh_timestamp now l))
  unfolding accept_reply
  accept_reply-IsBounded =
      elim (Bool-cases (ltb j (length l.next_index) && ltb j (length l.match_index))) [
        | inr out ↦ ground (arith, out)
        | inl within ↦
            let n = length-set l.match_index j (args.prev_log_index + length args.entries) in
            let (m, fm) = find_match-total (new_match j args l) (ground (arith, within, n)) in
            let (t, lt) = get_last_log_term-IsLog l.log h in
            let matches =
              All-set (λ v. v ≤ final l.log) l.match_index j
                (args.prev_log_index + length args.entries) k.matches w in
            let ml =
              find_match-bound (final l.log) m (new_match j args l) matches fm
                (ground (arith, within, n)) in
            let made =
              accept_reply_lem j args l m t h (ground (arith, within)) (ground (arith, within)) fm
                lt ml k.committed now in
            let bounded : BoundedLike (advanced_at j args l now m t) = (
              ground arith,
              IsBounded-by (advanced_at j args l now m t) l.log (new_match j args l) (ground arith)
                  (ground arith) matches (ground (arith, ml, k.committed)),
            ) in
            subst (After BoundedLike) (sym made) bounded
      ]

  back_off-IsBounded : After BoundedLike (back_off j args (refresh_timestamp now l))
  unfolding back_off
  back_off-IsBounded = ground (arith, k.matches, k.committed)

  pub handle_append_reply-IsBounded :
      (g : Labgob C D B) (reply : AppendEntriesReply)
      → After BoundedLike (handle_append_reply g now j args reply l)
  unfolding handle_append_reply
  handle_append_reply-IsBounded g reply =
      ground (arith, accept_reply-IsBounded, back_off-IsBounded, k.matches, k.committed)

module _ {C D B : Type 0} (g : Labgob C D B) (l : Raft C D B) (h : IsLog l.log)
    (k : IsBounded l) where
  -- The log stays a log, ends no earlier, and the positions stay within it.
  abbrev pub Grows : Raft C D B → Type 0
  Grows l' = IsLog l'.log × IsBounded l' × (final l.log ≤ final l'.log)

  -- `Start` appends an entry and records the leader's own match.
  abbrev item : C → LogItem C
  item x = record { command = command x; term = l.current_term; index = final l.log + 1 }

  abbrev Started : C → Raft C D B → Type 0
  Started x l' =
      (l' ≡ l)
      ⊎ ((l'.log ≡ l.log ++ item x ∷ [])
          × (l'.match_index ≡ set l.match_index l.me (final l.log + 1))
          × (l'.commit_index ≡ l.commit_index))

  abbrev Saved : ℕ → Raft C D B → Type 0
  Saved index l' =
      ((l'.log ≡ l.log)
        ⊎ ((first l.log ≤ index)
            × (index ≤ final l.log)
            × (l'.log ≡ drop (index - first l.log) l.log)))
      × (l'.match_index ≡ l.match_index)
      × (l'.commit_index ≡ l.commit_index)

  start_effect : (x : C) → After (Started x) (start g x l)
  unfolding start
  start_effect x =
      let shape = IsLog-append l.log (item x) h refl in
      ground (
        arith,
        get_last_log_index-IsLog l.log h,
        get_last_log_index-IsLog (l.log ++ item x ∷ []) shape,
        final-append l.log (item x) h,
      )

  pub start-Grows : (x : C) → After Grows (start g x l)
  start-Grows x = After-mono (Started x) Grows (start g x l) grows (start_effect x)
    where
      new : List (LogItem C)
      new = l.log ++ item x ∷ []

      ends : final (l.log ++ item x ∷ []) ≡ final l.log + 1
      ends = final-append l.log (item x) h

      grows : (l' : Raft C D B) → Started x l' → Grows l'
      grows l' (inl same) = subst Grows (sym same) (h, k, omega arith)
      grows l' (inr (log, matches, commit)) =
          let wide =
            All_mono (λ v. v ≤ final l.log) (λ v. v ≤ final (l.log ++ item x ∷ [])) l.match_index
              (λ v le. omega (arith, le, ends)) k.matches in
          (
            subst IsLog (sym log) (IsLog-append l.log (item x) h refl),
            IsBounded-by l' (l.log ++ item x ∷ []) (set l.match_index l.me (final l.log + 1)) log
                matches
                (All-set (λ v. v ≤ final (l.log ++ item x ∷ [])) l.match_index l.me
                  (final l.log + 1) wide (omega (arith, ends)))
                (omega (arith, commit, k.committed, ends)),
            omega (arith, ap final log, ends),
          )

  save_effect :
      (index term : ℕ) (bytes : D) → After (Saved index) (save_snapshot g index term bytes l)
  unfolding save_snapshot
  save_effect index term bytes =
      elim (Bool-cases (leb (first l.log) index && leb index (final l.log))) [
        | inr out ↦ ground (arith, log_contain_index_lem l.log index h, out)
        | inl within ↦ ground (
          arith,
          log_contain_index_lem l.log index h,
          within,
          get_last_log_index-IsLog l.log h,
          get_log_item_slice_lem l.log index h,
        )
      ]

  pub save_snapshot-Grows :
      (index term : ℕ) (bytes : D) → After Grows (save_snapshot g index term bytes l)
  save_snapshot-Grows index term bytes =
      After-mono (Saved index) Grows (save_snapshot g index term bytes l) grows
        (save_effect index term bytes)
    where
      grows : (l' : Raft C D B) → Saved index l' → Grows l'
      grows l' (inl same, matches, commit) = (
        subst IsLog (sym same) h,
        IsBounded-by l' l.log l.match_index same matches k.matches
            (omega (arith, commit, k.committed)),
        omega (arith, ap final same),
      )
      grows l' (inr (lo, hi, cut), matches, commit) =
          let r = IsLog-cut l.log index h lo hi in
          let rest = drop (index - first l.log) l.log in
          (
            subst IsLog (sym cut) r.shape,
            IsBounded-by l' rest l.match_index cut matches
                (subst (λ e. All (λ v. v ≤ e) l.match_index) (sym r.ends) k.matches)
                (omega (arith, commit, k.committed, r.ends)),
            omega (arith, ap final cut, r.ends),
          )

  args_from-IsWithin :
      (i prev : ℕ) (args : AppendEntriesArgs C) → args_from l i prev ≡ ok args → IsWithin l args
  args_from-IsWithin i prev args e =
      Result-cases (get_log_item_at_index l.log prev)
        (λ item f.
          let here = get_log_item_at_index-ok l.log prev item h f in
          let rest =
            get_append_log_item_lem (prev + 1) l.log h (omega (arith, here.lo))
              (omega (arith, here.hi)) in
          let size =
            final-drop l.log (prev + 1) h (omega (arith, here.lo)) (omega (arith, here.hi)) in
          ground (arith, e, f, rest, size))
        (λ f. ground (arith, e, f))

  pub append_args-IsWithin :
      (i : ℕ) (args : AppendEntriesArgs C) → append_args l i ≡ ok (some args) → IsWithin l args
  unfolding append_args
  append_args-IsWithin i args e =
      Result-cases (get_previous_index_for_server l i)
        (λ prev f.
          Result-cases (args_from l i (pos_part prev))
            (λ made k. ground (arith, e, f, k, args_from-IsWithin i (pos_part prev) made k))
            (λ k. ground (arith, e, f, k)))
        (λ f. ground (arith, e, f))
