-- ===== src/Raft/Node.antt =====
-- src/raft/raft.go: persistence, the changes of role, `Start`, `GetState`, `Kill` and `Make`. What
-- runs between `lock` and `unlock` is one action; `now` is the clock it reads.
use cosi300a.Prelude.{
  ℕ, zero, suc, ◌+◌, Bool, true, false, List, [], ◌∷◌, ◌++◌, ℤ, pos, minus_one, Result, ok, panic,
  or_panic, Go, pure, gets, lift, reads, modify, ◌>>=◌, ◌>>◌, if◌then◌else◌, ltb, nat_eq, replicate,
}
use cosi300a.Raft.Types.{
  command, dummy_node, LogItem, follower, candidate, leader, is_leader, Raft, Labgob,
}
use cosi300a.Raft.Persister.{Persister, save_raft_state, read_raft_state, raft_state_size}
use cosi300a.Raft.Log.{get_last_log_index, get_dummy_log_index, assign}

-- `for i := 0; i < len(rf.peers); i++ { if i == rf.me { continue }; … }`: the peers it visits, the
-- rounds left and `i` given.
unfoldable pub others : ℕ → ℕ → ℕ → List ℕ
others me zero i = []
others me (suc n) i = let rest = others me n (i + 1) in if nat_eq i me then rest else i ∷ rest

module _ {C D B : Type 0} where
  abbrev pub last_log_index : Raft C D B → Result ℕ
  last_log_index rf = get_last_log_index rf.log

  abbrev pub dummy_log_index : Raft C D B → Result ℕ
  dummy_log_index rf = get_dummy_log_index rf.log

  abbrev pub refresh_timestamp : ℕ → Raft C D B → Raft C D B
  refresh_timestamp now rf = record rf { election_time_stamp = now }

  abbrev pub become_follower : ℕ → ℕ → Raft C D B → Raft C D B
  become_follower now term rf = record rf {
    state = follower;
    current_term = term;
    vote_count = 0;
    vote_for = minus_one;
    election_time_stamp = now;
  }

  abbrev pub become_candidate : ℕ → Raft C D B → Raft C D B
  become_candidate now rf = record rf {
    state = candidate;
    vote_for = pos rf.me;
    vote_count = 1;
    current_term = rf.current_term + 1;
    election_time_stamp = now;
  }

  -- With no peers the loop reads nothing.
  unfoldable pub become_leader : ℕ → Go (Raft C D B) Unit
  become_leader now = do
    rf ← gets (λ rf. rf)
    last ← lift (if nat_eq rf.peers 0 then ok 0 else last_log_index rf)
    modify (λ rf. record rf {
      state = leader;
      vote_count = 0;
      match_index = replicate rf.peers 0;
      next_index = replicate rf.peers (last + 1);
      election_time_stamp = now;
    })

  unfoldable pub get_state : Raft C D B → ℕ × Bool
  get_state rf = (rf.current_term, is_leader rf.state)

  abbrev pub kill : Raft C D B → Raft C D B
  kill rf = record rf { dead = true }

module _ {C D B : Type 0} (g : Labgob C D B) where
  unfoldable pub get_persist_state_byte : Raft C D B → Result B
  get_persist_state_byte rf =
      or_panic
        (g.encode_state (record { term = rf.current_term; vote_for = rf.vote_for; log = rf.log }))

  unfoldable pub get_persist_snapshot_byte : ℕ → ℕ → D → Result B
  get_persist_snapshot_byte last_included_index last_included_term kv_snapshot = or_panic (
      g.encode_snapshot (record {
        state_machine_state = kv_snapshot;
        last_included_index = last_included_index;
        last_included_term = last_included_term;
      }))

  unfoldable pub persist : Go (Raft C D B) Unit
  unfolding get_persist_state_byte
  persist = do
    bytes ← reads get_persist_state_byte
    modify (λ rf. record rf { persister = save_raft_state bytes rf.persister })

  unfoldable pub read_persist : B → Go (Raft C D B) Unit
  read_persist bytes = if ltb (g.len bytes) 1 then pure tt else do
    state ← lift (or_panic (g.decode_state bytes))
    modify
        (λ rf. record rf { current_term = state.term; vote_for = state.vote_for; log = state.log })

  unfoldable pub get_log_length : Raft C D B → ℕ
  get_log_length rf = raft_state_size g.len rf.persister

  -- Index, term, and whether this peer is the leader.
  unfoldable pub start : C → Go (Raft C D B) (ℤ × ℤ × Bool)
  unfolding persist
  start c = do
    rf ← gets (λ rf. rf)
    if is_leader rf.state
        then (do
          last ← reads last_log_index
          modify (λ rf. record rf {
            log =
                rf.log
                ++ record { command = command c; term = rf.current_term; index = last + 1 } ∷ [];
          })
          new_last ← reads last_log_index
          matched ← reads (λ rf. assign rf.match_index rf.me new_last)
          modify (λ rf. record rf { match_index = matched })
          index ← reads last_log_index
          term ← gets (λ rf. rf.current_term)
          persist
          pure (pos index, pos term, true))
        else pure (minus_one, minus_one, false)

  abbrev dummy_item : LogItem C
  dummy_item = record { command = dummy_node; term = 0; index = 0 }

  -- `Make` as far as it sets the fields, before anything is read back.
  abbrev pub fresh : ℕ → ℕ → Persister B → ℕ → Raft C D B
  fresh peers me persister now = record {
    locked = false;
    peers = peers;
    persister = persister;
    apply_ch = [];
    me = me;
    dead = false;
    state = follower;
    current_term = 0;
    vote_for = minus_one;
    log = dummy_item ∷ [];
    commit_index = 0;
    last_applied = 0;
    next_index = [];
    match_index = [];
    election_time_stamp = now;
    vote_count = 0;
  }

  unfoldable pub restore : Go (Raft C D B) Unit
  unfolding persist read_persist
  restore = do
    rf ← gets (λ rf. rf)
    if ltb 0 (raft_state_size g.len rf.persister)
        then read_persist (read_raft_state rf.persister)
        else persist
    dummy ← reads dummy_log_index
    modify (λ rf. record rf { commit_index = dummy; last_applied = dummy })

  -- `Make`; the threads that it starts are the ticks of the other modules.
  unfoldable pub make : ℕ → ℕ → Persister B → ℕ → Result (Raft C D B)
  unfolding restore
  make peers me persister now = elim (restore (fresh peers me persister now)) [
    | ok (_, rf) ↦ ok rf
    | panic ↦ panic
  ]
