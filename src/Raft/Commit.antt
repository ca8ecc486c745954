-- ===== src/Raft/Commit.antt =====
-- A leader of src/raft/raft.go that hears of a success.
use cosi300a.Prelude.{
  ℕ, ◌+◌, ◌≤◌, ◌<◌, ◌≡◌, List, ◌++◌, arith, ok, nat_eq, if◌then◌else◌, length, set, true, map, ◌↔◌,
  ◌%◌, count_ge, length-set,
}
use cosi300a.Raft.Types.{Raft, Labgob, AppendEntriesArgs, AppendEntriesReply}
use cosi300a.Raft.Log.{find_match, get_last_log_term, max_int, get_majority_count}
use cosi300a.Raft.Node.{refresh_timestamp}
use cosi300a.Raft.Append.{accept_reply, handle_append_reply}
use cosi300a.Raft.Contiguous.{IsLog, first, final, Contiguous}
use cosi300a.Raft.Agree.{between, between_lem}
use cosi300a.Raft.Majority.{find_match-majority}
use cosi300a.Raft.Deliver.{message, messages, send_commit_message_lem}

module _ {C D B : Type 0} (j : ℕ) (args : AppendEntriesArgs C) (rf : Raft C D B) where
  -- The matches once peer `j` has the entries of the call.
  abbrev pub new_match : List ℕ
  new_match = set rf.match_index j (args.prev_log_index + length args.entries)

  abbrev pub new_next : List ℕ
  new_next = set rf.next_index j (args.prev_log_index + length args.entries + 1)

  -- The state where the middle of the matches is `m` and the log ends in term `t`.
  abbrev pub advanced : ℕ → ℕ → Raft C D B
  advanced m t =
      if nat_eq t rf.current_term
      then record rf {
        next_index = new_next;
        match_index = new_match;
        commit_index = max_int rf.commit_index m;
        last_applied = max_int rf.commit_index m;
        apply_ch =
            rf.apply_ch
            ++ messages rf.log (max_int (rf.commit_index + 1) (first rf.log + 1))
                (max_int rf.commit_index m + 1);
      }
      else record rf { next_index = new_next; match_index = new_match }

  abbrev pub advanced_at : ℕ → ℕ → ℕ → Raft C D B
  advanced_at now m t = record (advanced m t) { election_time_stamp = now }

  pub accept_reply_lem :
      (m t : ℕ)
      → IsLog rf.log
      → j < length rf.next_index
      → j < length rf.match_index
      → find_match new_match ≡ ok m
      → get_last_log_term rf.log ≡ ok t
      → m ≤ final rf.log
      → rf.commit_index ≤ final rf.log
      → (now : ℕ) → accept_reply j args (refresh_timestamp now rf) ≡ ok (tt, advanced_at now m t)
  unfolding accept_reply
  accept_reply_lem m t h jn jm fm lt ml cl now =
      let to = max_int rf.commit_index m in
      ground (
        arith,
        fm,
        lt,
        send_commit_message_lem (rf.commit_index + 1) to
            (record (refresh_timestamp now rf) {
              next_index = new_next;
              match_index = new_match;
              commit_index = to;
            })
            h (ground arith),
      )

  -- The reply reaches the acceptance above with the clock refreshed.
  pub handled :
      (g : Labgob C D B) (now m t : ℕ) (reply : AppendEntriesReply)
      → reply.term ≡ rf.current_term
      → reply.success ≡ true
      → accept_reply j args (refresh_timestamp now rf) ≡ ok (tt, advanced_at now m t)
      → handle_append_reply g now j args reply rf ≡ ok (tt, advanced_at now m t)
  unfolding handle_append_reply
  handled g now m t reply e s a = ground arith

module _ {C D B : Type 0} (g : Labgob C D B) where
  -- A leader whose log ends in its own term, in a cluster of odd size, hears of a success of peer
  -- `j`. Then it records the match, a larger index is committed exactly if a majority of the
  -- matches have reached it, and the service is sent the commands of its log from behind the old
  -- commit position up to the new one, each once and in their order, with the index and the term
  -- that they have there; the log stays as it is. The middle of the matches is to lie within the
  -- leader's log.
  pub leader_commits :
      (now j m : ℕ) (args : AppendEntriesArgs C) (reply : AppendEntriesReply) (rf : Raft C D B)
      → IsLog rf.log
      → first rf.log ≤ rf.commit_index
      → rf.commit_index ≤ final rf.log
      → get_last_log_term rf.log ≡ ok rf.current_term
      → j < length rf.next_index
      → j < length rf.match_index
      → length rf.match_index % 2 ≡ 1
      → find_match (new_match j args rf) ≡ ok m
      → m ≤ final rf.log
      → reply.term ≡ rf.current_term
      → reply.success ≡ true
      → (rf' : Raft C D B) × (handle_append_reply g now j args reply rf ≡ ok (tt, rf'))
        × (rf'.log ≡ rf.log)
        × (rf'.match_index ≡ new_match j args rf)
        × (rf'.apply_ch
            ≡ rf.apply_ch ++ map message (between rf.log rf.commit_index rf'.commit_index))
        × Contiguous (rf.commit_index + 1) (between rf.log rf.commit_index rf'.commit_index)
        × (rf.commit_index + length (between rf.log rf.commit_index rf'.commit_index)
            ≡ rf'.commit_index)
        × ((k : ℕ)
            → rf.commit_index < k
            → (k ≤ rf'.commit_index)
              ↔ (get_majority_count (length rf.match_index) ≤ count_ge k (new_match j args rf)))
  leader_commits now j m args reply rf h lo hi lt jn jm odd fm ml rt s =
      let to = max_int rf.commit_index m in
      let (shape, size) =
        between_lem rf.log rf.commit_index to h lo (ground arith) (ground arith) in
      let accepted = accept_reply_lem j args rf m rf.current_term h jn jm fm lt ml hi now in
      (
        advanced_at j args rf now m rf.current_term,
        handled j args rf g now m rf.current_term reply rt s accepted,
        ground arith,
        ground arith,
        ground arith,
        ground (arith, shape),
        ground (arith, size),
        λ k above. raised k above,
      )
    where
      n : length (new_match j args rf) ≡ length rf.match_index
      n = length-set rf.match_index j (args.prev_log_index + length args.entries)

      by_majority :
          (k : ℕ)
          → (k ≤ m)
            ↔ (get_majority_count (length rf.match_index) ≤ count_ge k (new_match j args rf))
      by_majority k =
          let (fwd, bwd) =
            find_match-majority (new_match j args rf) m k fm (omega (arith, n, odd)) in
          ((λ le. omega (arith, fwd le, n)), (λ maj. bwd (omega (arith, maj, n))))

      raised :
          (k : ℕ)
          → rf.commit_index < k
          → (k ≤ (advanced_at j args rf now m rf.current_term).commit_index)
            ↔ (get_majority_count (length rf.match_index) ≤ count_ge k (new_match j args rf))
      raised k above =
          let (fwd, bwd) = by_majority k in
          ((λ le. fwd (ground arith)), (λ maj. ground (arith, bwd maj)))
