-- ===== src/Raft/Matching/Steps.antt =====
-- The invariant of the matching of logs over every step of a cluster of peers of src/raft/raft.go.
use cosi300a.Prelude.{
  ℕ, ◌≡◌, ◌≢◌, ◌∙◌, ◌<◌, ◌≤◌, inl, inr, sym, subst, some, arith, ok, List, ◌∷◌, ◌++◌, All-append,
  All_mono,
}
use cosi300a.Raft.Types.{Raft, Labgob, IsCodec, leader, AppendEntriesArgs, InstallSnapshotArg}
use cosi300a.Raft.Log.{get_majority_count}
use cosi300a.Raft.Cluster.Leaders.{votes_for}
use cosi300a.Raft.Append.{append_tick}
use cosi300a.Raft.Snapshot.{snapshot_tick}
use cosi300a.Raft.Run.Steps.{
  Step, voted, campaigned, heard_vote, appended, installed, heard_append, heard_install, started,
  saved, restarted,
}
use cosi300a.Raft.Cluster.Steps.{
  Cluster, with_node, IsBackground, Moved, vote, campaign, hear, background,
}
use cosi300a.Raft.Matching.Chain.{Created}
use cosi300a.Raft.Matching.Continues.{
  handle_append_reply-Continues, handle_snapshot_reply-Continues, make-Continues,
  save_snapshot-Continues,
}
use cosi300a.Raft.Matching.Sends.{append_tick-IsCallTo, snapshot_tick-leads, IsCallTo}
use cosi300a.Raft.Matching.Network.{
  Network, TakesNoCall, IsLocal, Wired, local, send_appends, send_install, receive_append,
  receive_install, Ran, unmoved, ran,
}
use cosi300a.Raft.Matching.Invariant.{IsAppend, IsCall, Matches, Matching}
use cosi300a.Raft.Matching.Keeps.{
  quiet-Matches, receive_append-Matches, receive_install-Matches, vote-Matches, hear-Matches,
  campaign-Matches,
}
use cosi300a.Raft.Matching.Creates.{start-Matches}

module _ {C D B : Type 0} (g : Labgob C D B) (c : IsCodec g) (n : ℕ) where
  background-Matching :
      (created : Created C) (s : Network C D B) (h : Matches g n created s) (i : ℕ) (lt : i < n)
      (b : Raft C D B) (step : Step g (s.cluster.nodes i) b)
      → IsBackground g step
      → TakesNoCall g n step
      → Matching g n
          (record s { cluster = record s.cluster { nodes = with_node s.cluster.nodes i b } })
  background-Matching created s h i lt b (voted now args reply e) k o = elim k [ ]
  background-Matching created s h i lt b (campaigned now timeout calls e) k o = elim k [ ]
  background-Matching created s h i lt b (heard_vote now reply e) k o = elim k [ ]
  background-Matching created s h i lt b (appended now args reply e) k o = elim o [ ]
  background-Matching created s h i lt b (installed now arg reply e) k o = elim o [ ]
  background-Matching created s h i lt b (heard_append now j args reply e) k o = (
    created,
    quiet-Matches g c n created s h i lt b (heard_append now j args reply e) k (
        ground (
          arith,
          e,
          handle_append_reply-Continues g created now (s.cluster.nodes i) (h.traced i lt) j args
              reply,
        )),
  )
  background-Matching created s h i lt b (heard_install now j args reply e) k o = (
    created,
    quiet-Matches g c n created s h i lt b (heard_install now j args reply e) k (
        ground (
          arith,
          e,
          handle_snapshot_reply-Continues g created now (s.cluster.nodes i) (h.traced i lt) j args
              reply,
        )),
  )
  background-Matching created s h i lt b (saved index term bytes e) k o = (
    created,
    quiet-Matches g c n created s h i lt b (saved index term bytes e) k (
        ground (
          arith,
          e,
          save_snapshot-Continues g created 0 (s.cluster.nodes i) (h.traced i lt) index term bytes,
        )),
  )
  background-Matching created s h i lt b (restarted now e) k o = (
    created,
    quiet-Matches g c n created s h i lt b (restarted now e) k (
        make-Continues g created now (s.cluster.nodes i) (h.traced i lt) b
          (h.elects.nodes i).durable e),
  )
  background-Matching created s h i lt b (started x result e) k o =
      start-Matches g c n created s h i lt x b result e

  local-Matching :
      (created : Created C) (s : Network C D B) {t : Cluster C D B}
      → Matches g n created s
      → (m : Moved g n s.cluster t) → IsLocal g n m
      → Matching g n (record s { cluster = t })
  local-Matching created s h (vote i now args reply b e) lt =
      (created, vote-Matches g c n created s h i lt now args reply b e)
  local-Matching created s h (campaign i now timeout calls b e) lt =
      (created, campaign-Matches g c n created s h i lt now timeout calls b e)
  local-Matching created s h (hear i j now reply b e jn was fresh) lt =
      (created, hear-Matches g c n created s h i lt j now reply b e jn was fresh)
  local-Matching created s h (background i b step k) (lt, o) =
      background-Matching created s h i lt b step k o

  -- What a leader sends to another peer.
  sends-IsCall :
      (created : Created C) (s : Network C D B) (i to from t : ℕ)
      → Matches g n created s
      → i < n
      → (s.cluster.nodes i).state ≡ leader
      → to ≢ i
      → from ≡ (s.cluster.nodes i).me
      → t ≡ (s.cluster.nodes i).current_term
      → IsCall n s.cluster.counted to from t
  sends-IsCall created s i to from t h lt leads other me term =
      let elected =
        subst (λ u. get_majority_count n ≤ votes_for s.cluster.counted n u i) (sym term)
          ((h.elects.nodes i).elected lt leads) in
      subst (λ m. IsCall n s.cluster.counted to m t) (sym (me ∙ (h.elects.nodes i).me))
        (record { within = lt; other = other; elected = elected })

  send_appends-Matches :
      (created : Created C) (s : Network C D B) (i : ℕ) (calls : List (ℕ × AppendEntriesArgs C))
      → Matches g n created s
      → i < n
      → append_tick (s.cluster.nodes i) ≡ ok calls
      → Matches g n created (record s { appends = calls ++ s.appends })
  send_appends-Matches created s i calls h lt e =
      elim (append_tick-IsCallTo created (s.cluster.nodes i) (h.traced i lt).log calls e) [
        | inl nothing ↦
            subst (λ l. Matches g n created (record s { appends = l ++ s.appends })) (sym nothing) h
        | inr (leads, sent) ↦ record {
          elects = h.elects;
          traced = h.traced;
          leads = h.leads;
          creators = h.creators;
          installs = h.installs;
          appends =
              All-append (IsAppend created n s.cluster.counted) calls s.appends
                (All_mono (IsCallTo created (s.cluster.nodes i))
                  (IsAppend created n s.cluster.counted) calls
                  (λ (to, args) (other, call). (
                    sends-IsCall created s i to args.leader_id args.term h lt leads
                        (λ same. other (same ∙ sym (h.elects.nodes i).me)) call.leader_id call.term,
                    call.chained,
                  ))
                  sent)
                h.appends;
        }
      ]

  send_install-Matches :
      (created : Created C) (s : Network C D B) (i server : ℕ) (arg : InstallSnapshotArg D)
      → Matches g n created s
      → i < n
      → i ≢ server
      → snapshot_tick g (s.cluster.nodes i) server ≡ ok (some arg)
      → Matches g n created (record s { installs = (server, arg) ∷ s.installs })
  send_install-Matches created s i server arg h lt ne e =
      let (leads, term, me) = snapshot_tick-leads g (s.cluster.nodes i) server arg e in
      record {
        elects = h.elects;
        traced = h.traced;
        leads = h.leads;
        creators = h.creators;
        appends = h.appends;
        installs = (
          sends-IsCall created s i server arg.leader_id arg.term h lt leads (λ e. ne (sym e)) me
              term,
          h.installs,
        );
      }

  Wired-Matching : {s t : Network C D B} → Matching g n s → Wired g n s t → Matching g n t
  Wired-Matching {s} (created, h) (local m o) = local-Matching created s h m o
  Wired-Matching {s} (created, h) (send_appends i calls lt e) =
      (created, send_appends-Matches created s i calls h lt e)
  Wired-Matching {s} (created, h) (send_install i server arg lt ne e) =
      (created, send_install-Matches created s i server arg h lt ne e)
  Wired-Matching {s} (created, h) (receive_append i k now args reply b lt sent e) =
      (created, receive_append-Matches g c n created s h i lt k now args reply b sent e)
  Wired-Matching {s} (created, h) (receive_install i k now arg reply b lt sent e) =
      (created, receive_install-Matches g c n created s h i lt k now arg reply b sent e)

  pub Ran-Matching : {s t : Network C D B} → Matching g n s → Ran g n s t → Matching g n t
  Ran-Matching h unmoved = h
  Ran-Matching h (ran r w) = Wired-Matching (Ran-Matching h r) w
