-- ===== src/Kvraft/Threads.antt =====
-- The threads of src/kvraft/server.go interleaved: the loop that takes messages, the threads that were
-- handed a snapshot, the handlers, and the peer beneath them.
use cosi300a.Prelude.{
  ℕ, ◌≡◌, ◌⊎◌, inl, inr, refl, subst, sym, ◌∙◌, Bool, true, false, Option, none, some, List, [],
  ◌∷◌, ◌++◌, ok, arith, Result-cases, Bool-cases, insert, string_key, ap,
}
use cosi300a.Raft.Types.{ApplyMsg, Interface, dummy_node, Raft, Labgob}
use cosi300a.Raft.Run.Steps.{Step}
use cosi300a.Kvraft.Types.{
  Command, PutAppendArgs, PutAppendReply, GetArgs, GetReply, KvServer, SnapshotGob, IsFaithful,
}
use cosi300a.Kvraft.Server.{
  Saver, saves, releases, committed, run_command, check_apply_command, apply_all, run_saver,
  take_snapshot,
}
use cosi300a.Kvraft.Requests.{get, put_append, start_on_raft}
use cosi300a.Kvraft.CatchUp.{Agrees, message-Agrees}

-- A server, and its threads that save a snapshot.
pub record Threaded (D B : Type 0) : Type 0 where
  pub server : KvServer D B
  pub savers : List (Saver D)

abbrev pub hand_out : {D : Type 0} → Option (ℕ × ℕ × D) → List (Saver D) → List (Saver D)
hand_out none savers = savers
hand_out (some s) savers = savers ++ saves s ∷ []

-- A thread goes on with what it does next, or ends.
abbrev pub goes_on : {D : Type 0} → Option (Saver D) → List (Saver D) → List (Saver D)
goes_on none savers = savers
goes_on (some one) savers = one ∷ savers

module _ {D B : Type 0} (g : Labgob Command D B) (h : SnapshotGob D) where
  -- One thread moves; the list has the message that it takes, if it takes one. The loop that takes
  -- messages holds the server's mutex, but not the peer's: when it has measured the peer's log, the
  -- peer may move on before the loop tries the snapshot lock. So `read` is any state of the peer.
  pub data Moves (s : Threaded D B) : List (ApplyMsg Command D) → Threaded D B → Type 0 where
    receive :
        (m : ApplyMsg Command D) (o : Option (ℕ × ℕ × D)) (read : Raft Command D B)
        (kv : KvServer D B)
        → check_apply_command g h m (record s.server { rf = read }) ≡ ok (o, kv)
        → Moves s
            (m ∷ [])
            (record { server = record kv { rf = s.server.rf }; savers = hand_out o s.savers })
    save :
        (before after : List (Saver D)) (one : Saver D) (next : Option (Saver D))
        (kv : KvServer D B)
        → s.savers ≡ before ++ one ∷ after
        → run_saver g h one s.server ≡ ok (next, kv)
        → Moves s [] (record { server = kv; savers = before ++ goes_on next after })
    gets_key :
        (args : GetArgs) (o : Option GetReply) (kv : KvServer D B)
        → get g args s.server ≡ ok (o, kv)
        → Moves s [] (record s { server = kv })
    puts_key :
        (args : PutAppendArgs) (o : Option PutAppendReply) (kv : KvServer D B)
        → put_append g args s.server ≡ ok (o, kv)
        → Moves s [] (record s { server = kv })
    peer :
        (rf : Raft Command D B)
        → Step g s.server.rf rf
        → Moves s [] (record s { server = record s.server { rf = rf } })

  pub data Interleaved (s : Threaded D B) : List (ApplyMsg Command D) → Threaded D B → Type 0 where
    begin : Interleaved s [] s
    move :
        {ms ns : List (ApplyMsg Command D)} {t u : Threaded D B}
        → Interleaved s ms t
        → Moves t ns u
        → Interleaved s (ms ++ ns) u

  -- There is at most one thread that saves a snapshot, and it holds the lock.
  abbrev pub IsLocked : Threaded D B → Type 0
  IsLocked s =
      ((s.savers ≡ []) × (s.server.snapshot_lock ≡ false))
      ⊎ ((one : Saver D) × (s.savers ≡ one ∷ []) × (s.server.snapshot_lock ≡ true))

  -- What a handler changes is the peer.
  record IsQuiet (a b : KvServer D B) : Type 0 where
    kv_map : b.kv_map ≡ a.kv_map
    counts : b.last_committed_command_count ≡ a.last_committed_command_count
    lock : b.snapshot_lock ≡ a.snapshot_lock

  get-IsQuiet :
      (args : GetArgs) (a b : KvServer D B) (o : Option GetReply)
      → get g args a ≡ ok (o, b)
      → IsQuiet a b
  unfolding get start_on_raft
  get-IsQuiet args a b o e = ground (arith, e)

  put_append-IsQuiet :
      (args : PutAppendArgs) (a b : KvServer D B) (o : Option PutAppendReply)
      → put_append g args a ≡ ok (o, b)
      → IsQuiet a b
  unfolding put_append start_on_raft
  put_append-IsQuiet args a b o e = ground (arith, e)

  -- A thread that saves changes the peer; it holds the lock until it ends.
  record Saves (next : Option (Saver D)) (a b : KvServer D B) : Type 0 where
    kv_map : b.kv_map ≡ a.kv_map
    counts : b.last_committed_command_count ≡ a.last_committed_command_count
    lock : b.snapshot_lock ≡ (elim next [ none ↦ false | some one ↦ a.snapshot_lock ])

  run_saver-Saves :
      (one : Saver D) (next : Option (Saver D)) (a b : KvServer D B)
      → run_saver g h one a ≡ ok (next, b)
      → Saves next a b
  unfolding run_saver
  run_saver-Saves (saves (index, term, d)) next a b e = ground (arith, e)
  run_saver-Saves releases next a b e = ground (arith, e)

  -- A message takes the lock exactly if it hands out a snapshot.
  abbrev Locks : Option (ℕ × ℕ × D) → Bool → Bool → Type 0
  Locks none old new = new ≡ old
  Locks (some one) old new = (old ≡ false) × (new ≡ true)

  take_snapshot-Locks :
      (index term : ℕ) (a b : KvServer D B) (o : Option (ℕ × ℕ × D))
      → take_snapshot g h index term a ≡ ok (o, b)
      → Locks o a.snapshot_lock b.snapshot_lock
  unfolding take_snapshot
  take_snapshot-Locks index term a b none e = ground (arith, e)
  take_snapshot-Locks index term a b (some one) e = ground (arith, e)

  check_apply_command-Locks :
      (m : ApplyMsg Command D) (a b : KvServer D B) (o : Option (ℕ × ℕ × D))
      → check_apply_command g h m a ≡ ok (o, b)
      → Locks o a.snapshot_lock b.snapshot_lock
  unfolding check_apply_command
  check_apply_command-Locks (ApplyMsg.snapshot d index term) a b none e = ground (arith, e)
  check_apply_command-Locks (ApplyMsg.snapshot d index term) a b (some one) e = ground (arith, e)
  check_apply_command-Locks (ApplyMsg.entry dummy_node index term) a b o e = ground (arith, e)
  check_apply_command-Locks (ApplyMsg.entry (Interface.command c) index term) a b o e =
      elim (Bool-cases (committed a c.id)) [
        | inl old ↦
            let nothing : none ≡ o = ground (arith, e, old) in
            subst (λ r. Locks r a.snapshot_lock b.snapshot_lock) nothing (ground (arith, e, old))
        | inr new ↦
            Result-cases (run_command c.type c a.kv_map)
              (λ kv_map f.
                let ran = record a {
                  kv_map = kv_map;
                  last_committed_command_count =
                      insert c.id.clerk_id c.id.command a.last_committed_command_count;
                } in
                take_snapshot-Locks index term ran b o (ground (arith, e, new, f)))
              (λ f. absurd (ground (arith, e, new, f)))
      ]

  hand_out-IsLocked :
      (o : Option (ℕ × ℕ × D)) (s : Threaded D B) (kv : KvServer D B)
      → Locks o s.server.snapshot_lock kv.snapshot_lock
      → IsLocked s
      → IsLocked (record { server = kv; savers = hand_out o s.savers })
  hand_out-IsLocked none s kv l (inl (empty, free)) = inl (empty, l ∙ free)
  hand_out-IsLocked none s kv l (inr (one, only, held)) = inr (one, only, l ∙ held)
  hand_out-IsLocked (some one) s kv l (inl (empty, free)) =
      inr (saves one, ap (λ xs. xs ++ saves one ∷ []) empty, l.1)
  hand_out-IsLocked (some one) s kv l (inr (other, only, held)) = ground (arith, l, held)

  -- The only thread moves.
  split_one :
      (before after : List (Saver D)) (one other : Saver D)
      → other ∷ [] ≡ before ++ one ∷ after
      → (before ≡ []) × (after ≡ [])
  split_one [] [] one other e = (refl, refl)
  split_one [] (x ∷ after) one other e = cc
  split_one (x ∷ []) after one other e = cc
  split_one (x ∷ y ∷ before) after one other e = cc

  split_none : (before after : List (Saver D)) (one : Saver D) → ¬ ([] ≡ before ++ one ∷ after)
  split_none [] after one e = cc
  split_none (x ∷ before) after one e = cc

  goes_on-IsLocked :
      (next : Option (Saver D)) (before after : List (Saver D)) (kv : KvServer D B)
      → before ≡ []
      → after ≡ []
      → kv.snapshot_lock ≡ (elim next [ none ↦ false | some one ↦ true ])
      → IsLocked (record { server = kv; savers = before ++ goes_on next after })
  goes_on-IsLocked none before after kv b a l = inl (ground (arith, b, a), l)
  goes_on-IsLocked (some one) before after kv b a l = inr (one, ground (arith, b, a), l)

  Moves-IsLocked :
      {s t : Threaded D B} {ms : List (ApplyMsg Command D)} → Moves s ms t → IsLocked s → IsLocked t
  Moves-IsLocked {s} (receive m o read kv e) l =
      hand_out-IsLocked o s (record kv { rf = s.server.rf })
        (check_apply_command-Locks m (record s.server { rf = read }) kv o e) l
  Moves-IsLocked {s} (save before after one next kv at e) (inl (empty, free)) =
      absurd (split_none before after one (sym empty ∙ at))
  Moves-IsLocked {s} (save before after one next kv at e) (inr (other, only, held)) =
      let (b, a) = split_one before after one other (sym only ∙ at) in
      let saved = run_saver-Saves one next s.server kv e in
      goes_on-IsLocked next before after kv b a (ground (arith, saved.lock, held))
  Moves-IsLocked {s} (gets_key args o kv e) l =
      hand_out-IsLocked none s kv (get-IsQuiet args s.server kv o e).lock l
  Moves-IsLocked {s} (puts_key args o kv e) l =
      hand_out-IsLocked none s kv (put_append-IsQuiet args s.server kv o e).lock l
  Moves-IsLocked (peer rf step) l = l

  -- However the threads of a server are interleaved, where saving a snapshot and releasing the lock
  -- are two steps of a thread: at most one thread has been handed a snapshot and has not released
  -- the lock since, whether it has saved the snapshot yet or not, and the lock is held exactly if
  -- there is one, at the end if it was so at first.
  pub interleaved-IsLocked :
      (s t : Threaded D B) (ms : List (ApplyMsg Command D))
      → Interleaved s ms t
      → IsLocked s
      → IsLocked t
  interleaved-IsLocked s t ms begin l = l
  interleaved-IsLocked s u _ (move {ms = ms} {t = t} r m) l =
      Moves-IsLocked m (interleaved-IsLocked s t ms r l)

  apply_all-append :
      (ms ns : List (ApplyMsg Command D)) (a b : KvServer D B)
      → apply_all g h ms a ≡ ok b
      → apply_all g h (ms ++ ns) a ≡ apply_all g h ns b
  unfolding apply_all
  apply_all-append [] ns a b e = ground (arith, e)
  apply_all-append (m ∷ ms) ns a b e =
      Result-cases (check_apply_command g h m a)
        (λ (o, a1) f. ground (arith, e, f, apply_all-append ms ns a1 b (ground (arith, e, f))))
        (λ f. absurd (ground (arith, e, f)))

module _ {D B : Type 0} (g : Labgob Command D B) (h : SnapshotGob D) (w : IsFaithful h) where
  Moves-Agrees :
      {s t : Threaded D B} {ms : List (ApplyMsg Command D)} (kv : KvServer D B)
      → Moves g h s ms t
      → Agrees s.server kv
      → (kv' : KvServer D B) × (apply_all g h ms kv ≡ ok kv') × Agrees t.server kv'
  unfolding apply_all
  Moves-Agrees {s} kv (receive m o read b e) same =
      let (t, kv', e', same') =
        message-Agrees g h w m (record s.server { rf = read }) b kv o (ground (arith, same)) e in
      (kv', ground (arith, e'), ground (arith, same'))
  Moves-Agrees {s} kv (save before after one next b at e) same =
      let saved = run_saver-Saves g h one next s.server b e in
      (kv, refl, ground (arith, saved, same))
  Moves-Agrees {s} kv (gets_key args o b e) same =
      let quiet = get-IsQuiet g h args s.server b o e in (kv, refl, ground (arith, quiet, same))
  Moves-Agrees {s} kv (puts_key args o b e) same =
      let quiet = put_append-IsQuiet g h args s.server b o e in
      (kv, refl, ground (arith, quiet, same))
  Moves-Agrees {s} kv (peer rf step) same = (kv, refl, ground (arith, same))

  -- However the threads of a server are interleaved, the loop that takes messages, the threads that
  -- save snapshots, the handlers and the peer beneath them: a server with the same map and command
  -- numbers that takes the same messages one after the other, and does nothing else, does not
  -- panic, and ends with the same map and command numbers. labgob is one that decodes what it
  -- encodes.
  pub interleaved-Agrees :
      (s t : Threaded D B) (ms : List (ApplyMsg Command D)) (kv : KvServer D B)
      → Interleaved g h s ms t
      → Agrees s.server kv
      → (kv' : KvServer D B) × (apply_all g h ms kv ≡ ok kv') × Agrees t.server kv'
  unfolding apply_all
  interleaved-Agrees s t ms kv begin same = (kv, refl, same)
  interleaved-Agrees s u _ kv (move {ms = ms} {ns = ns} {t = t} r m) same =
      let (kv1, e1, same1) = interleaved-Agrees s t ms kv r same in
      let (kv2, e2, same2) = Moves-Agrees kv1 m same1 in
      (kv2, apply_all-append g h ms ns kv kv1 e1 ∙ e2, same2)
