-- ===== src/Raft/Run/Steps.antt =====
-- Runs of a peer of src/raft/raft.go: any operations in any order, with any arguments and replies, and
-- crashes, after which `Make` restarts the peer from its persister.
use cosi300a.Prelude.{ℕ, ◌≡◌, ok, arith, Bool, ℤ, List}
use cosi300a.Raft.Types.{
  Raft, Labgob, IsCodec, RequestVoteArgs, RequestVoteReply, AppendEntriesArgs, AppendEntriesReply,
  InstallSnapshotArg, InstallSnapshotReply,
}
use cosi300a.Raft.Persister.{Persister}
use cosi300a.Raft.Node.{start, make, fresh}
use cosi300a.Raft.Vote.{request_vote, election_tick, handle_vote_reply}
use cosi300a.Raft.Append.{append_entries, handle_append_reply}
use cosi300a.Raft.Snapshot.{install_snapshot, handle_snapshot_reply, save_snapshot}
use cosi300a.Raft.Run.Defs.{Advances, IsDurable}
use cosi300a.Raft.Run.Votes.{
  request_vote-Advances, append_entries-Advances, install_snapshot-Advances, election_tick-Advances,
  handle_vote_reply-Advances, handle_append_reply-Advances, handle_snapshot_reply-Advances,
  start-Advances, save_snapshot-Advances,
}
use cosi300a.Raft.Run.Durable.{
  request_vote-IsDurable, append_entries-IsDurable, install_snapshot-IsDurable,
  election_tick-IsDurable, handle_vote_reply-IsDurable, handle_append_reply-IsDurable,
  handle_snapshot_reply-IsDurable, start-IsDurable, save_snapshot-IsDurable, restore-IsDurable,
}

module _ {C D B : Type 0} (g : Labgob C D B) where
  pub data Step (a b : Raft C D B) : Type 0 where
    voted :
        (now : ℕ) (args : RequestVoteArgs) (reply : RequestVoteReply)
        → request_vote g now args a ≡ ok (reply, b)
        → Step a b
    appended :
        (now : ℕ) (args : AppendEntriesArgs C) (reply : AppendEntriesReply)
        → append_entries g now args a ≡ ok (reply, b)
        → Step a b
    installed :
        (now : ℕ) (arg : InstallSnapshotArg D) (reply : InstallSnapshotReply)
        → install_snapshot g now arg a ≡ ok (reply, b)
        → Step a b
    campaigned :
        (now timeout : ℕ) (calls : List (ℕ × RequestVoteArgs))
        → election_tick g now timeout a ≡ ok (calls, b)
        → Step a b
    heard_vote :
        (now : ℕ) (reply : RequestVoteReply)
        → handle_vote_reply g now reply a ≡ ok (tt, b)
        → Step a b
    heard_append :
        (now j : ℕ) (args : AppendEntriesArgs C) (reply : AppendEntriesReply)
        → handle_append_reply g now j args reply a ≡ ok (tt, b)
        → Step a b
    heard_install :
        (now server : ℕ) (args : InstallSnapshotArg D) (reply : InstallSnapshotReply)
        → handle_snapshot_reply g now server args reply a ≡ ok (tt, b)
        → Step a b
    started : (c : C) (result : ℤ × ℤ × Bool) → start g c a ≡ ok (result, b) → Step a b
    saved :
        (index term : ℕ) (bytes : D) → save_snapshot g index term bytes a ≡ ok (tt, b) → Step a b
    restarted : (now : ℕ) → make g a.peers a.me a.persister now ≡ ok b → Step a b

  pub data Reach (a : Raft C D B) : Raft C D B → Type 0 where
    here : Reach a a
    next : {b c : Raft C D B} → Reach a b → Step b c → Reach a c

module _ {C D B : Type 0} (g : Labgob C D B) (c : IsCodec g) where
  pub make-IsDurable :
      (peers me now : ℕ) (ps : Persister B) (b : Raft C D B)
      → make g peers me ps now ≡ ok b
      → IsDurable g b
  unfolding make
  make-IsDurable peers me now ps b h =
      ground (arith, restore-IsDurable g c (fresh g peers me ps now))

  restarted-Advances :
      (now : ℕ) (a b : Raft C D B)
      → IsDurable g a
      → make g a.peers a.me a.persister now ≡ ok b
      → Advances a b
  unfolding make
  restarted-Advances now a b d h = ground arith

  pub Step-IsDurable : {a b : Raft C D B} → IsDurable g a → Step g a b → IsDurable g b
  Step-IsDurable {a} d (voted now args reply h) =
      ground (arith, h, request_vote-IsDurable g c now a d args)
  Step-IsDurable {a} d (appended now args reply h) =
      ground (arith, append_entries-IsDurable g c now a d args)
  Step-IsDurable {a} d (installed now arg reply h) =
      ground (arith, install_snapshot-IsDurable g c now a d arg)
  Step-IsDurable {a} d (campaigned now timeout calls h) =
      ground (arith, election_tick-IsDurable g c now a d timeout)
  Step-IsDurable {a} d (heard_vote now reply h) =
      ground (arith, handle_vote_reply-IsDurable g c now a d reply)
  Step-IsDurable {a} d (heard_append now j args reply h) =
      ground (arith, handle_append_reply-IsDurable g c now a d j args reply)
  Step-IsDurable {a} d (heard_install now j args reply h) =
      ground (arith, handle_snapshot_reply-IsDurable g c now a d j args reply)
  Step-IsDurable {a} d (started x r h) = ground (arith, start-IsDurable g c 0 a d x)
  Step-IsDurable {a} d (saved i t bytes h) =
      ground (arith, save_snapshot-IsDurable g c 0 a d i t bytes)
  Step-IsDurable {a} {b} d (restarted now h) = make-IsDurable a.peers a.me now a.persister b h

  pub Step-Advances : {a b : Raft C D B} → IsDurable g a → Step g a b → Advances a b
  Step-Advances {a} d (voted now args reply h) = ground (arith, request_vote-Advances g now a args)
  Step-Advances {a} d (appended now args reply h) =
      ground (arith, append_entries-Advances g now a args)
  Step-Advances {a} d (installed now arg reply h) =
      ground (arith, install_snapshot-Advances g now a arg)
  Step-Advances {a} d (campaigned now timeout calls h) =
      ground (arith, election_tick-Advances g now a timeout)
  Step-Advances {a} d (heard_vote now reply h) =
      ground (arith, handle_vote_reply-Advances g now a reply)
  Step-Advances {a} d (heard_append now j args reply h) =
      ground (arith, handle_append_reply-Advances g now a j args reply)
  Step-Advances {a} d (heard_install now j args reply h) =
      ground (arith, handle_snapshot_reply-Advances g now a j args reply)
  Step-Advances {a} d (started x r h) = ground (arith, start-Advances g 0 a x)
  Step-Advances {a} d (saved i t bytes h) = ground (arith, save_snapshot-Advances g 0 a i t bytes)
  Step-Advances {a} {b} d (restarted now h) = restarted-Advances now a b d h

  -- In any run of a peer, crashes and restarts included, the persister holds the term, the vote and
  -- the log after each step, if it did at the start.
  pub Reach-IsDurable : {a b : Raft C D B} → IsDurable g a → Reach g a b → IsDurable g b
  Reach-IsDurable d here = d
  Reach-IsDurable d (next r s) = Step-IsDurable (Reach-IsDurable d r) s

  -- In any run of a peer, crashes and restarts included, the term never falls, and a vote that is
  -- cast stays cast as long as the term is the same, if the persister holds the peer's state at the
  -- start.
  pub Reach-Advances : {a b : Raft C D B} → IsDurable g a → Reach g a b → Advances a b
  Reach-Advances d here = ground arith
  Reach-Advances {a} {b} d (next {b = m} r s) =
      joined a m b (Reach-Advances d r) (Step-Advances (Reach-IsDurable d r) s)
    where
      joined : (x y z : Raft C D B) → Advances x y → Advances y z → Advances x z
      joined x y z p q = ground (arith, p.vote_kept, q.vote_kept)
