-- ===== src/Raft/Matching/Sends.antt =====
-- The calls of a leader of src/raft/raft.go carry entries of its log, and `Start` creates an entry.
use cosi300a.Prelude.{
  ℕ, zero, suc, ◌+◌, ◌≡◌, ◌≢◌, ◌⊎◌, ap, ◌∙◌, pos_part, some, List, [], ◌∷◌, ◌++◌, arith, ok, After,
  Result-cases, nat_eq, Bool-cases, Option-cases, inl, inr, All,
}
use cosi300a.Raft.Types.{Raft, Labgob, AppendEntriesArgs, InstallSnapshotArg, leader, command}
use cosi300a.Raft.Log.{get_log_item_at_index, get_last_log_index}
use cosi300a.Raft.Append.{
  get_previous_index_for_server, args_from, append_args, append_calls, append_tick,
}
use cosi300a.Raft.Snapshot.{snapshot_tick}
use cosi300a.Raft.Node.{start, others}
use cosi300a.Raft.Accessors.{get_log_item_at_index-ok, get_append_log_item_lem}
use cosi300a.Raft.Matching.Chain.{Created, Chain, IsChained, IsChained-drop, found-IsLog}

others-other : (me n i : ℕ) → All (λ j. j ≢ me) (others me n i)
unfolding others
others-other me zero i = tt
others-other me (suc n) i = elim (Bool-cases (nat_eq i me)) [
  | inl e ↦ rw e (others-other me n (i + 1))
  | inr e ↦ rw e ((λ same. ground (arith, e, same)), others-other me n (i + 1))
]

-- The call is of the peer's term, says that it is the peer's, and carries entries as created.
pub record IsCallOf {C D B : Type 0} (created : Created C) (a : Raft C D B)
    (args : AppendEntriesArgs C) : Type 0 where
  pub term : args.term ≡ a.current_term
  pub leader_id : args.leader_id ≡ a.me
  pub chained : Chain created args.prev_log_term (args.prev_log_index + 1) args.entries

abbrev pub IsCallTo : {C D B : Type 0} → Created C → Raft C D B → ℕ × AppendEntriesArgs C → Type 0
IsCallTo created a (j, args) = (j ≢ a.me) × IsCallOf created a args

module _ {C D B : Type 0} (created : Created C) (rf : Raft C D B)
    (h : IsChained created rf.log) where
  args_from-IsCallOf :
      (i prev : ℕ) (args : AppendEntriesArgs C)
      → args_from rf i prev ≡ ok args
      → IsCallOf created rf args
  args_from-IsCallOf i prev args e =
      Result-cases (get_log_item_at_index rf.log prev)
        (λ item f.
          let shape = found-IsLog created rf.log prev h f in
          let here = get_log_item_at_index-ok rf.log prev item shape f in
          let rest =
            get_append_log_item_lem (prev + 1) rf.log shape (omega (arith, here.lo))
              (omega (arith, here.hi)) in
          let chained = IsChained-drop created rf.log prev h f in
          ground (arith, e, f, rest, chained))
        (λ f. ground (arith, e, f))

  append_args-IsCallOf :
      (i : ℕ) (args : AppendEntriesArgs C)
      → append_args rf i ≡ ok (some args)
      → IsCallOf created rf args
  unfolding append_args
  append_args-IsCallOf i args e =
      Result-cases (get_previous_index_for_server rf i)
        (λ prev f.
          Result-cases (args_from rf i (pos_part prev))
            (λ made k. ground (arith, e, f, k, args_from-IsCallOf i (pos_part prev) made k))
            (λ k. ground (arith, e, f, k)))
        (λ f. ground (arith, e, f))

  append_calls-IsCallTo :
      (is : List ℕ) (calls : List (ℕ × AppendEntriesArgs C))
      → All (λ j. j ≢ rf.me) is
      → append_calls rf is ≡ ok calls
      → All (IsCallTo created rf) calls
  unfolding append_calls
  append_calls-IsCallTo [] calls o e = ground (arith, e)
  append_calls-IsCallTo (i ∷ is) calls o e =
      Result-cases (append_calls rf is)
        (λ rest f.
          Result-cases (append_args rf i)
            (λ call k. elim (Option-cases call) [
              | inl no_call ↦ ground (arith, e, f, k, no_call, append_calls-IsCallTo is rest o.1 f)
              | inr (args, one) ↦
                  let made = append_args-IsCallOf i args (k ∙ ap ok one) in
                  ground (arith, e, f, k, one, o.0, made, append_calls-IsCallTo is rest o.1 f)
            ])
            (λ k. ground (arith, e, k)))
        (λ f. ground (arith, e, f))

  pub append_tick-IsCallTo :
      (calls : List (ℕ × AppendEntriesArgs C))
      → append_tick rf ≡ ok calls
      → (calls ≡ []) ⊎ ((rf.state ≡ leader) × All (IsCallTo created rf) calls)
  unfolding append_tick
  append_tick-IsCallTo calls e = ground (
    arith,
    e,
    append_calls-IsCallTo (others rf.me rf.peers 0) calls (others-other rf.me rf.peers 0),
  )

module _ {C D B : Type 0} (g : Labgob C D B) (rf : Raft C D B) where
  pub snapshot_tick-leads :
      (server : ℕ) (arg : InstallSnapshotArg D)
      → snapshot_tick g rf server ≡ ok (some arg)
      → (rf.state ≡ leader) × (arg.term ≡ rf.current_term) × (arg.leader_id ≡ rf.me)
  unfolding snapshot_tick
  snapshot_tick-leads server arg e = ground (arith, e)

-- A leader's new entry, behind the one of index `last`.
pub record Starts {C D B : Type 0} (c : C) (last : ℕ) (a b : Raft C D B) : Type 0 where
  pub leads : a.state ≡ leader
  pub me : b.me ≡ a.me
  pub peers : b.peers ≡ a.peers
  pub state : b.state ≡ a.state
  pub current_term : b.current_term ≡ a.current_term
  pub vote_count : b.vote_count ≡ a.vote_count
  pub apply_ch : b.apply_ch ≡ a.apply_ch
  pub log :
      b.log ≡ a.log ++ record { command = command c; term = a.current_term; index = last + 1 } ∷ []

module _ {C D B : Type 0} (g : Labgob C D B) (rf : Raft C D B) where
  pub start-Starts :
      (c : C)
      → After
          (λ (b : Raft C D B).
            (b ≡ rf) ⊎ ((last : ℕ) × (get_last_log_index rf.log ≡ ok last) × Starts c last rf b))
          (start g c rf)
  unfolding start
  start-Starts c =
      Result-cases (get_last_log_index rf.log)
        (λ last e.
          let started : After (λ (b : Raft C D B). (b ≡ rf) ⊎ Starts c last rf b) (start g c rf) =
            ground (arith, e) in
          ground (arith, e, started))
        (λ e. ground (arith, e))
