-- ===== src/Raft/Append.antt =====
-- src/raft/raft.go: replication. `AppendEntries`, one round of `startAppend`, the handling of a reply
-- and the messages to the service.
use cosi300a.Prelude.{
  ℕ, zero, suc, ◌+◌, ◌-◌, Bool, true, false, ◌||◌, Option, none, some, List, [], ◌∷◌, ◌++◌, ℤ, pos,
  pos_part, sub_ℕ, ltb_ℤ, Result, ok, panic, Go, pure, gets, reads, modify, ◌>>=◌, ◌>>◌,
  if◌then◌else◌, ltb, nat_eq, length,
}
use cosi300a.Raft.Types.{entry, AppendEntriesArgs, AppendEntriesReply, is_leader, Raft, Labgob}
use cosi300a.Raft.Log.{
  get_last_log_term, get_dummy_log_index, get_log_item_at_index, delete_log_from_index_inclusive,
  get_append_log_item, find_match, min_int, max_int, at, assign,
}
use cosi300a.Raft.Node.{
  last_log_index, dummy_log_index, become_follower, refresh_timestamp, persist, others,
}

abbrev add_call : {A : Type 0} → ℕ → Option A → List (ℕ × A) → List (ℕ × A)
add_call i none calls = calls
add_call i (some args) calls = (i, args) ∷ calls

module _ {C D B : Type 0} where
  -- `for ; i <= to; i++ { … }`, the rounds left given.
  unfoldable pub send_items : ℕ → ℕ → Go (Raft C D B) Unit
  send_items zero i = pure tt
  send_items (suc n) i = do
    item ← reads (λ rf. get_log_item_at_index rf.log i)
    modify
        (λ rf. record rf { apply_ch = rf.apply_ch ++ entry item.command item.index item.term ∷ [] })
    send_items n (i + 1)

  unfoldable pub send_commit_message : ℕ → ℕ → Go (Raft C D B) Unit
  unfolding send_items
  send_commit_message from to = do
    dummy ← reads dummy_log_index
    send_items (to + 1 - max_int from (dummy + 1)) (max_int from (dummy + 1))

  -- The end of `AppendEntries`: what the leader has committed is committed here.
  unfoldable pub follow_commit : ℕ → Go (Raft C D B) Unit
  unfolding send_commit_message
  follow_commit leader_commit = do
    last_commit ← gets (λ rf. rf.commit_index)
    if ltb last_commit leader_commit
        then (do
          last ← reads last_log_index
          modify (λ rf. record rf { commit_index = min_int last leader_commit })
          send_commit_message (last_commit + 1) (min_int last leader_commit)
          modify (λ rf. record rf { last_applied = max_int rf.commit_index rf.last_applied }))
        else pure tt

  abbrev delete_from : ℕ → Go (Raft C D B) Unit
  delete_from i = do
    kept ← reads (λ rf. delete_log_from_index_inclusive rf.log i)
    modify (λ rf. record rf { log = kept })

  -- `rf.nextIndex[i] - 1`, which is -1 where the next index is 0.
  unfoldable pub get_previous_index_for_server : Raft C D B → ℕ → Result ℤ
  get_previous_index_for_server rf i = elim (at rf.next_index i) [
    | panic ↦ panic
    | ok next ↦ ok (sub_ℕ next 1)
  ]

  abbrev pub args_from : Raft C D B → ℕ → ℕ → Result (AppendEntriesArgs C)
  args_from rf i prev = elim (get_log_item_at_index rf.log prev) [
    | panic ↦ panic
    | ok item ↦ elim (get_append_log_item rf.log (prev + 1)) [
      | panic ↦ panic
      | ok entries ↦ ok (record {
        term = rf.current_term;
        leader_id = rf.me;
        prev_log_index = prev;
        prev_log_term = item.term;
        entries = entries;
        leader_commit = rf.commit_index;
      })
    ]
  ]

  -- The call to one peer, or none where the peer needs a snapshot.
  unfoldable pub append_args : Raft C D B → ℕ → Result (Option (AppendEntriesArgs C))
  unfolding get_previous_index_for_server
  append_args rf i = elim (get_previous_index_for_server rf i) [
    | panic ↦ panic
    | ok prev ↦ elim (get_dummy_log_index rf.log) [
      | panic ↦ panic
      | ok dummy ↦
          if ltb_ℤ prev (pos dummy)
          then ok none
          else elim (args_from rf i (pos_part prev)) [ panic ↦ panic | ok args ↦ ok (some args) ]
    ]
  ]

  unfoldable pub append_calls : Raft C D B → List ℕ → Result (List (ℕ × AppendEntriesArgs C))
  unfolding append_args
  append_calls rf [] = ok []
  append_calls rf (i ∷ is) =
      let rest = append_calls rf is in
      elim (append_args rf i) [
        | panic ↦ panic
        | ok call ↦ elim rest [ panic ↦ panic | ok calls ↦ ok (add_call i call calls) ]
      ]

  -- One round of the loop of `startAppend`: the calls that it starts.
  unfoldable pub append_tick : Raft C D B → Result (List (ℕ × AppendEntriesArgs C))
  unfolding append_calls others
  append_tick rf = if is_leader rf.state then append_calls rf (others rf.me rf.peers 0) else ok []

  -- A success: the peer has the entries, and what the middle of the matches allows is committed.
  unfoldable pub accept_reply : ℕ → AppendEntriesArgs C → Go (Raft C D B) Unit
  unfolding send_commit_message
  accept_reply j args = do
    next ← reads (λ rf. assign rf.next_index j (args.prev_log_index + length args.entries + 1))
    matched ← reads (λ rf. assign rf.match_index j (args.prev_log_index + length args.entries))
    modify (λ rf. record rf { next_index = next; match_index = matched })
    new_commit ← reads (λ rf. find_match rf.match_index)
    last_term ← reads (λ rf. get_last_log_term rf.log)
    rf ← gets (λ rf. rf)
    if nat_eq last_term rf.current_term
        then (do
          modify (λ rf. record rf { commit_index = max_int rf.commit_index new_commit })
          send_commit_message (rf.commit_index + 1) (max_int rf.commit_index new_commit)
          modify (λ rf. record rf { last_applied = rf.commit_index }))
        else pure tt

  -- A failure. `prev - len` may be negative in the source; the maximum is the same.
  unfoldable pub back_off : ℕ → AppendEntriesArgs C → Go (Raft C D B) Unit
  back_off j args = do
    dummy ← reads dummy_log_index
    next ← reads (λ rf. assign rf.next_index j (
        if nat_eq args.prev_log_index dummy
        then dummy
        else max_int (args.prev_log_index - length args.entries) (dummy + 1)))
    modify (λ rf. record rf { next_index = next })

module _ {C D B : Type 0} (g : Labgob C D B) where
  abbrev persisted_reply : Bool → Go (Raft C D B) AppendEntriesReply
  persisted_reply success = do
    term ← gets (λ rf. rf.current_term)
    persist g
    pure (record { term = term; success = success })

  -- The part of `AppendEntries` below the tests of the term.
  unfoldable pub append_in_term : ℕ → AppendEntriesArgs C → Go (Raft C D B) AppendEntriesReply
  unfolding persist follow_commit
  append_in_term now args = do
    modify (refresh_timestamp now)
    last ← reads last_log_index
    dummy ← reads dummy_log_index
    if ltb last args.prev_log_index || ltb args.prev_log_index dummy
        then persisted_reply false
        else (do
          previous ← reads (λ rf. get_log_item_at_index rf.log args.prev_log_index)
          if nat_eq previous.term args.prev_log_term
              then (do
                delete_from (args.prev_log_index + 1)
                modify (λ rf. record rf { log = rf.log ++ args.entries })
                follow_commit args.leader_commit
                persisted_reply true)
              else (do delete_from args.prev_log_index; persisted_reply false))

  unfoldable pub append_entries : ℕ → AppendEntriesArgs C → Go (Raft C D B) AppendEntriesReply
  append_entries now args = do
    current ← gets (λ rf. rf.current_term)
    if ltb args.term current then pure (record { term = current; success = false }) else (do
      modify (λ rf. if ltb rf.current_term args.term then become_follower now args.term rf else rf)
      append_in_term now args)

  -- A reply of peer `j` to the call with `args`.
  unfoldable pub handle_append_reply :
      ℕ → ℕ → AppendEntriesArgs C → AppendEntriesReply → Go (Raft C D B) Unit
  unfolding persist accept_reply back_off
  handle_append_reply now j args reply = do
    current ← gets (λ rf. rf.current_term)
    if ltb current reply.term then (do modify (become_follower now reply.term); persist g) else (do
      modify (refresh_timestamp now)
      if ltb reply.term current
          then pure tt
          else if reply.success
          then accept_reply j args
          else back_off j args)
