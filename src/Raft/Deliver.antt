-- ===== src/Raft/Deliver.antt =====
-- What src/raft/raft.go sends to the service: the committed entries, in order.
use cosi300a.Prelude.{
  ℕ, zero, suc, ◌+◌, ◌-◌, ◌≤◌, ◌≡◌, refl, List, [], ◌∷◌, ◌++◌, map, append_assoc, append-nil, arith,
  ok, ltb, if◌then◌else◌, take, drop, drop-get, Bool-cases, inl, inr,
}
use cosi300a.Raft.Types.{LogItem, ApplyMsg, entry, Raft}
use cosi300a.Raft.Log.{max_int, min_int}
use cosi300a.Raft.Append.{send_items, send_commit_message, follow_commit}
use cosi300a.Raft.Contiguous.{IsLog, first, final}
use cosi300a.Raft.Accessors.{
  get_log_item_at_index-found, get_dummy_log_index-IsLog, get_last_log_index-IsLog,
}

module _ {C D : Type 0} where
  abbrev pub message : LogItem C → ApplyMsg C D
  message item = entry item.command item.index item.term

  -- The messages for the entries with the indices `i` up to and without `j`.
  abbrev pub messages : List (LogItem C) → ℕ → ℕ → List (ApplyMsg C D)
  messages log i j = map message (take (j - i) (drop (i - first log) log))

module _ {C D B : Type 0} where
  abbrev pub with_sent : Raft C D B → List (ApplyMsg C D) → Raft C D B
  with_sent rf sent = record rf { apply_ch = rf.apply_ch ++ sent }

  -- The loop sends one message for each entry, in order.
  send_items_lem :
      (n i : ℕ) (rf : Raft C D B)
      → IsLog rf.log
      → first rf.log ≤ i
      → i + n ≤ final rf.log + 1
      → send_items n i rf
        ≡ ok (tt, with_sent rf (map message (take n (drop (i - first rf.log) rf.log))))
  unfolding send_items
  send_items_lem zero i rf h lo hi = ground (arith, append-nil rf.apply_ch)
  send_items_lem (suc n) i rf h lo hi =
      let (item, e, j, k) = get_log_item_at_index-found rf.log i h lo (omega arith) in
      let rest : List (ApplyMsg C D) = map message (take n (drop (i + 1 - first rf.log) rf.log)) in
      let shift : i - first rf.log + 1 ≡ i + 1 - first rf.log = omega arith in
      ground (
        arith,
        e,
        send_items_lem n (i + 1) (with_sent rf (message item ∷ [])) h (omega arith) (omega arith),
        drop-get (i - first rf.log) rf.log k,
        shift,
        append_assoc rf.apply_ch (message item ∷ []) rest,
      )

  nothing_sent : (rf : Raft C D B) → rf ≡ with_sent rf []
  nothing_sent rf = ground (arith, append-nil rf.apply_ch)

  -- Of the entries asked for, those behind the dummy are sent.
  pub send_commit_message_lem :
      (from to : ℕ) (rf : Raft C D B)
      → IsLog rf.log
      → to ≤ final rf.log
      → send_commit_message from to rf
        ≡ ok (tt, with_sent rf (messages rf.log (max_int from (first rf.log + 1)) (to + 1)))
  unfolding send_commit_message
  send_commit_message_lem from to rf h hi =
      let i = max_int from (first rf.log + 1) in
      elim (Bool-cases (ltb (to + 1) i)) [
        | inl e ↦
            let none_left : to + 1 - i ≡ 0 = ground arith in
            ground
              (arith, get_dummy_log_index-IsLog rf.log h, none_left, nothing_sent rf, no_items i)
        | inr e ↦ ground (
          arith,
          get_dummy_log_index-IsLog rf.log h,
          send_items_lem (to + 1 - i) i rf h (ground arith) (ground arith),
        )
      ]
    where
      no_items : (i : ℕ) → send_items 0 i rf ≡ ok (tt, rf)
      no_items i = refl

  -- Where the leader has committed more, the follower commits up to its own last entry, and sends
  -- the entries in between.
  abbrev pub followed : ℕ → Raft C D B → Raft C D B
  followed leader_commit rf =
      let to = min_int (final rf.log) leader_commit in
      if ltb rf.commit_index leader_commit
      then record (with_sent rf
          (messages rf.log (max_int (rf.commit_index + 1) (first rf.log + 1)) (to + 1))) {
            commit_index = to;
            last_applied = max_int to rf.last_applied;
          }
      else rf

  pub follow_commit_lem :
      (leader_commit : ℕ) (rf : Raft C D B)
      → IsLog rf.log
      → follow_commit leader_commit rf ≡ ok (tt, followed leader_commit rf)
  unfolding follow_commit
  follow_commit_lem leader_commit rf h =
      let to = min_int (final rf.log) leader_commit in
      ground (
        arith,
        get_last_log_index-IsLog rf.log h,
        send_commit_message_lem (rf.commit_index + 1) to (record rf { commit_index = to }) h
            (ground arith),
      )
