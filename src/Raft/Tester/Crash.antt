-- ===== src/Raft/Tester/Crash.antt =====
-- src/raft/config.go: what `crash1` and `start1` do to a server's persister and its peer.
use cosi300a.Prelude.{ℕ, ◌≡◌, refl, Option, none, some, Result, ok, arith}
use cosi300a.Raft.Types.{Raft, Labgob, follower}
use cosi300a.Raft.Persister.{Persister, make_persister, copy, read_raft_state, save_raft_state}
use cosi300a.Raft.Log.{get_dummy_log_index}
use cosi300a.Raft.Node.{make, fresh}
use cosi300a.Raft.Run.Defs.{IsDurable, persistent}

module _ {C D B : Type 0} (g : Labgob C D B) where
  -- A nil pointer in `cfg.saved` is `none`.
  unfoldable pub crash1 : Option (Persister B) → Option (Persister B)
  unfolding copy
  crash1 none = none
  crash1 (some old) = some (save_raft_state (read_raft_state (copy old)) (make_persister g.nil))

  unfoldable pub start1 : ℕ → ℕ → ℕ → Option (Persister B) → Result (Raft C D B)
  unfolding crash1 copy
  start1 n i now saved = elim (crash1 saved) [
    | none ↦ make g n i (make_persister g.nil) now
    | some old ↦ make g n i (copy old) now
  ]

  -- A peer whose persister holds its state comes back from the tester's crash and restart with its
  -- term, vote and log, as a follower, and with a persister without the snapshot.
  start1-persistent :
      (a : Raft C D B) (now dummy : ℕ)
      → IsDurable g a
      → get_dummy_log_index a.log ≡ ok dummy
      → (r : Raft C D B) × (start1 a.peers a.me now (some a.persister) ≡ ok r)
        × (persistent r ≡ persistent a)
        × (r.state ≡ follower)
        × (r.persister.snapshot ≡ g.nil)
  unfolding start1 crash1 copy make
  start1-persistent a now dummy d e =
      (recovered, ground (arith, d.saved, d.nonempty, e), refl, refl, refl)
    where
      kept : Persister B
      kept = record { raftstate = a.persister.raftstate; snapshot = g.nil }

      recovered : Raft C D B
      recovered = record (fresh g a.peers a.me kept now) {
        current_term = a.current_term;
        vote_for = a.vote_for;
        log = a.log;
        commit_index = dummy;
        last_applied = dummy;
      }
