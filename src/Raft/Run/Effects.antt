-- ===== src/Raft/Run/Effects.antt =====
-- The loops of src/raft/raft.go that send to the service change nothing that is persistent.
use cosi300a.Prelude.{ℕ, zero, suc, ◌+◌, arith, ◌++◌, ◌∷◌, [], After, Result-cases}
use cosi300a.Raft.Types.{Raft, entry, LogItem, AppendEntriesArgs}
use cosi300a.Raft.Log.{min_int, get_log_item_at_index, get_last_log_index}
use cosi300a.Raft.Append.{send_items, send_commit_message, follow_commit, accept_reply, back_off}
use cosi300a.Raft.Run.Defs.{OnlyCommits, KeepsPersistent}

module _ {C D B : Type 0} where
  abbrev pub sent : LogItem C → Raft C D B → Raft C D B
  sent item rf = record rf {
    apply_ch = rf.apply_ch ++ entry item.command item.index item.term ∷ [];
  }

  pub send_items-OnlyCommits :
      (n i : ℕ) (rf : Raft C D B) → After (OnlyCommits rf) (send_items n i rf)
  unfolding send_items
  send_items-OnlyCommits zero i rf = ground arith
  send_items-OnlyCommits (suc n) i rf =
      Result-cases (get_log_item_at_index rf.log i)
        (λ item e. ground (arith, e, send_items-OnlyCommits n (i + 1) (sent item rf)))
        (λ e. ground (arith, e))

  pub send_commit_message-OnlyCommits :
      (from to : ℕ) (rf : Raft C D B) → After (OnlyCommits rf) (send_commit_message from to rf)
  unfolding send_commit_message
  send_commit_message-OnlyCommits from to rf = grind (arith, send_items-OnlyCommits)

  pub follow_commit-OnlyCommits :
      (leader_commit : ℕ) (rf : Raft C D B)
      → After (OnlyCommits rf) (follow_commit leader_commit rf)
  unfolding follow_commit
  follow_commit-OnlyCommits leader_commit rf =
      Result-cases (get_last_log_index rf.log)
        (λ last e.
          let n = min_int last leader_commit in
          ground (
            arith,
            e,
            send_commit_message-OnlyCommits (rf.commit_index + 1) n
                (record rf { commit_index = n }),
          ))
        (λ e. ground (arith, e))

  pub accept_reply-KeepsPersistent :
      (j : ℕ) (args : AppendEntriesArgs C) (rf : Raft C D B)
      → After (KeepsPersistent rf) (accept_reply j args rf)
  unfolding accept_reply
  accept_reply-KeepsPersistent j args rf = grind (arith, send_commit_message-OnlyCommits)

  pub back_off-KeepsPersistent :
      (j : ℕ) (args : AppendEntriesArgs C) (rf : Raft C D B)
      → After (KeepsPersistent rf) (back_off j args rf)
  unfolding back_off
  back_off-KeepsPersistent j args rf = ground arith
