-- ===== src/Raft/Bounds/Run.antt =====
-- A leader's time in office in src/raft/raft.go: calls, answers to calls that were made, commands and
-- snapshots, in any order.
use cosi300a.Prelude.{
  ℕ, ◌≡◌, ◌≤◌, ◌<◌, some, List, [], ◌∷◌, arith, ok, All, All_mono, All-get_elem?, After, get_elem?,
  subst, sym, ap, ℤ, Bool,
}
use cosi300a.Raft.Types.{
  Raft, Labgob, AppendEntriesArgs, AppendEntriesReply, InstallSnapshotArg, InstallSnapshotReply,
}
use cosi300a.Raft.Node.{start}
use cosi300a.Raft.Append.{append_args, handle_append_reply}
use cosi300a.Raft.Snapshot.{save_snapshot, handle_snapshot_reply}
use cosi300a.Raft.Contiguous.{IsLog, final}
use cosi300a.Raft.Rounds.Exchange.{IsBounded}
use cosi300a.Raft.Bounds.Keeps.{
  IsWithin, BoundedLike, Grows, handle_append_reply-IsBounded, start-Grows, save_snapshot-Grows,
  append_args-IsWithin,
}

module _ {C D B : Type 0} (g : Labgob C D B) where
  -- The calls that were made, the latest first, and the leader.
  pub data Office (l : Raft C D B) : List (AppendEntriesArgs C) → Raft C D B → Type 0 where
    takes : Office l [] l
    calls :
        {cs : List (AppendEntriesArgs C)} {a : Raft C D B}
        → Office l cs a
        → (i : ℕ) (args : AppendEntriesArgs C) → append_args a i ≡ ok (some args)
        → Office l (args ∷ cs) a
    hears :
        {cs : List (AppendEntriesArgs C)} {a : Raft C D B}
        → Office l cs a
        → (k now j : ℕ) (args : AppendEntriesArgs C) (reply : AppendEntriesReply) (b : Raft C D B)
        → get_elem? cs k ≡ some args
        → handle_append_reply g now j args reply a ≡ ok (tt, b)
        → Office l cs b
    starts :
        {cs : List (AppendEntriesArgs C)} {a : Raft C D B}
        → Office l cs a
        → (x : C) (result : ℤ × ℤ × Bool) (b : Raft C D B) → start g x a ≡ ok (result, b)
        → Office l cs b
    saves :
        {cs : List (AppendEntriesArgs C)} {a : Raft C D B}
        → Office l cs a
        → (index term : ℕ) (bytes : D) (b : Raft C D B)
        → save_snapshot g index term bytes a ≡ ok (tt, b)
        → Office l cs b
    installs :
        {cs : List (AppendEntriesArgs C)} {a : Raft C D B}
        → Office l cs a
        → (now server : ℕ) (arg : InstallSnapshotArg D) (reply : InstallSnapshotReply)
          (b : Raft C D B)
        → reply.term < a.current_term
        → handle_snapshot_reply g now server arg reply a ≡ ok (tt, b)
        → Office l cs b

  -- The log is a log and has not become shorter at its end, and all positions lie within it.
  pub record IsInOffice (l : Raft C D B) (cs : List (AppendEntriesArgs C)) (a : Raft C D B)
      : Type 0 where
    pub log : IsLog a.log
    pub bounded : IsBounded a
    pub calls : All (IsWithin a) cs
    pub ends : final l.log ≤ final a.log

  unheard :
      (now server : ℕ) (arg : InstallSnapshotArg D) (reply : InstallSnapshotReply)
      (a b : Raft C D B)
      → reply.term < a.current_term
      → handle_snapshot_reply g now server arg reply a ≡ ok (tt, b)
      → b ≡ a
  unfolding handle_snapshot_reply
  unheard now server arg reply a b lt e = ground (arith, e, lt)

  grown :
      (l a b : Raft C D B) (cs : List (AppendEntriesArgs C)) (h : IsInOffice l cs a)
      → IsLog b.log
      → IsBounded b
      → final a.log ≤ final b.log
      → IsInOffice l cs b
  grown l a b cs h log bounded le = record {
    log = log;
    bounded = bounded;
    calls = All_mono (IsWithin a) (IsWithin b) cs (λ args w. omega (arith, w, le)) h.calls;
    ends = omega (arith, h.ends, le);
  }

  -- A leader whose matches and commit position lie within its log, through any sequence of calls
  -- that it makes, replies to calls that it has made, commands, snapshots of its service and
  -- replies that a peer took a snapshot: its log stays a log and ends no earlier, its matches and
  -- its commit position stay within it, and so do the entries of the calls that it made.
  pub office-IsBounded :
      (l a : Raft C D B) (cs : List (AppendEntriesArgs C))
      → IsLog l.log
      → IsBounded l
      → Office l cs a
      → IsInOffice l cs a
  office-IsBounded l a cs h k takes = record {
    log = h;
    bounded = k;
    calls = tt;
    ends = omega arith;
  }
  office-IsBounded l a cs h k (calls {cs = before} o i args e) =
      let r = office-IsBounded l a before h k o in
      record {
        log = r.log;
        bounded = r.bounded;
        calls = (append_args-IsWithin g a r.log r.bounded i args e, r.calls);
        ends = r.ends;
      }
  office-IsBounded l a cs h k (hears {a = before} o i now j args reply b made e) =
      let r = office-IsBounded l before cs h k o in
      let w = All-get_elem? (IsWithin before) cs i r.calls made in
      let (log, bounded) =
        subst (After (BoundedLike j args before r.log r.bounded w now)) e
          (handle_append_reply-IsBounded j args before r.log r.bounded w now g reply) in
      grown l before b cs r (subst IsLog (sym log) r.log) bounded (omega (arith, ap final log))
  office-IsBounded l a cs h k (starts {a = before} o x result b e) =
      let r = office-IsBounded l before cs h k o in
      let (log, bounded, le) =
        subst (After (Grows g before r.log r.bounded)) e (start-Grows g before r.log r.bounded x) in
      grown l before b cs r log bounded le
  office-IsBounded l a cs h k (saves {a = before} o index term bytes b e) =
      let r = office-IsBounded l before cs h k o in
      let (log, bounded, le) =
        subst (After (Grows g before r.log r.bounded)) e
          (save_snapshot-Grows g before r.log r.bounded index term bytes) in
      grown l before b cs r log bounded le
  office-IsBounded l a cs h k (installs {a = before} o now server arg reply b lt e) =
      let r = office-IsBounded l before cs h k o in
      subst (IsInOffice l cs) (sym (unheard now server arg reply before b lt e)) r
