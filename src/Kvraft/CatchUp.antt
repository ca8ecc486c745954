-- ===== src/Kvraft/CatchUp.antt =====
-- src/kvraft/server.go: replicas that apply the same log agree, and a replica that is sent a snapshot
-- agrees with the one that took it.
use cosi300a.Prelude.{
  ℕ, ◌≡◌, refl, Option, none, List, [], ◌∷◌, arith, ok, Result-cases, ℤ, insert, string_key,
  Bool-cases, inl, inr,
}
use cosi300a.Raft.Types.{ApplyMsg, Interface, Labgob, dummy_node}
use cosi300a.Kvraft.Types.{Command, Snapshot, KvServer, SnapshotGob, IsFaithful}
use cosi300a.Kvraft.Server.{
  check_apply_command, apply_all, encode_state, decode_state, committed, take_snapshot, restored,
  run_command,
}

module _ {D B : Type 0} where
  -- Two servers hold the same map and the same command numbers.
  pub record Agrees (a b : KvServer D B) : Type 0 where
    pub kv_map : a.kv_map ≡ b.kv_map
    pub counts : a.last_committed_command_count ≡ b.last_committed_command_count

module _ {D B : Type 0} (g : Labgob Command D B) (h : SnapshotGob D) (w : IsFaithful h) where
  abbrev saved_of : KvServer D B → Snapshot
  saved_of kv = record {
    kv_map = kv.kv_map;
    last_committed_command_count = kv.last_committed_command_count;
  }

  -- Handing out a snapshot never panics and leaves the maps alone.
  pub take_snapshot_ok :
      (index term : ℕ) (kv : KvServer D B)
      → (t : Option (ℕ × ℕ × D)) × (kv' : KvServer D B) × (take_snapshot g h index term kv
          ≡ ok (t, kv'))
        × Agrees kv kv'
  unfolding take_snapshot
  take_snapshot_ok index term kv =
      Result-cases (take_snapshot g h index term kv) (λ (t, kv') e. (t, kv', e, ground (arith, e)))
        (λ p. let (d, e) = w.encodes (saved_of kv) in absurd (ground (arith, p, e)))

  -- A message that one of them takes is taken by the other, with the same effect on both maps.
  pub message-Agrees :
      (m : ApplyMsg Command D) (a a' b : KvServer D B) (s : Option (ℕ × ℕ × D))
      → Agrees a b
      → check_apply_command g h m a ≡ ok (s, a')
      → (t : Option (ℕ × ℕ × D)) × (b' : KvServer D B) × (check_apply_command g h m b ≡ ok (t, b'))
        × Agrees a' b'
  unfolding check_apply_command
  message-Agrees (ApplyMsg.snapshot d index term) a a' b s same e =
      Result-cases (decode_state g h d)
        (λ saved f. (none, restored g h saved b, ground (arith, f), ground (arith, e, f)))
        (λ f. ground (arith, e, f))
  message-Agrees (ApplyMsg.entry dummy_node index term) a a' b s same e = ground (arith, e)
  message-Agrees (ApplyMsg.entry (Interface.command c) index term) a a' b s same e =
      elim (Bool-cases (committed a c.id)) [
        | inl old ↦ (none, b, ground (arith, e, same, old), ground (arith, e, old))
        | inr new ↦
            Result-cases (run_command c.type c a.kv_map)
              (λ m f.
                let b1 = record b {
                  kv_map = m;
                  last_committed_command_count =
                      insert c.id.clerk_id c.id.command b.last_committed_command_count;
                } in
                let a1 = record a {
                  kv_map = m;
                  last_committed_command_count =
                      insert c.id.clerk_id c.id.command a.last_committed_command_count;
                } in
                let (t, b', taken, agrees) = take_snapshot_ok index term b1 in
                let (t1, a1', taken1, agrees1) = take_snapshot_ok index term a1 in
                (
                  t,
                  b',
                  ground (arith, same, new, f, taken),
                  ground (arith, e, new, f, taken1, agrees, agrees1, same),
                ))
              (λ f. ground (arith, e, new, f))
      ]

  -- Two servers with the same map and the same command numbers take the same messages alike: if one
  -- does not panic, the other does not, and they end with the same map and command numbers. labgob
  -- is one that decodes what it encodes.
  pub log-Agrees :
      (ms : List (ApplyMsg Command D)) (a a' b : KvServer D B)
      → Agrees a b
      → apply_all g h ms a ≡ ok a'
      → (b' : KvServer D B) × (apply_all g h ms b ≡ ok b') × Agrees a' b'
  unfolding apply_all
  log-Agrees [] a a' b same e = (b, refl, ground (arith, e))
  log-Agrees (m ∷ ms) a a' b same e =
      Result-cases (check_apply_command g h m a)
        (λ (s, a1) first.
          let (t, b1, taken, agrees) = message-Agrees m a a1 b s same first in
          let (b', rest, done) = log-Agrees ms a1 a' b1 agrees (ground (arith, e, first)) in
          (b', ground (arith, taken, rest), done))
        (λ p. ground (arith, e, p))

  -- What a server encodes is what another has after it takes the snapshot.
  pub decode-encode :
      (kv : KvServer D B) (d : D)
      → encode_state g h kv ≡ ok d
      → decode_state g h d
        ≡ ok (record {
          kv_map = kv.kv_map;
          last_committed_command_count = kv.last_committed_command_count;
        })
  unfolding encode_state decode_state
  decode-encode kv d e = ground (arith, w.decodes (saved_of kv) d, w.nonempty (saved_of kv) d)

  -- A server that takes the encoded state of another and then the same messages does not panic if
  -- the other does not, and ends with the same map and the same command numbers. labgob is one that
  -- decodes what it encodes.
  pub catches_up :
      (a a' b : KvServer D B) (d : D) (index term : ℤ) (ms : List (ApplyMsg Command D))
      → encode_state g h a ≡ ok d
      → apply_all g h ms a ≡ ok a'
      → (b' : KvServer D B) × (apply_all g h (ApplyMsg.snapshot d index term ∷ ms) b ≡ ok b')
        × Agrees a' b'
  unfolding apply_all check_apply_command
  catches_up a a' b d index term ms e run =
      let restored_b = restored g h (saved_of a) b in
      let (b', rest, done) = log-Agrees ms a a' restored_b (ground arith) run in
      (b', ground (arith, decode-encode a d e, rest), done)
