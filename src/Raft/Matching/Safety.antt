-- ===== src/Raft/Matching/Safety.antt =====
-- The logs of a cluster of peers of src/raft/raft.go match, and so do the entries that their services
-- are sent.
use cosi300a.Prelude.{ℕ, ◌≡◌, ◌<◌, ◌≤◌, none, some, arith, ok, [], ◌∷◌, All-get_elem?, get_elem?}
use cosi300a.Raft.Types.{Raft, Labgob, IsCodec, LogItem, Interface, command, entry}
use cosi300a.Raft.Persister.{Persister}
use cosi300a.Raft.Node.{make}
use cosi300a.Raft.Log.{get_log_item_at_index}
use cosi300a.Raft.Contiguous.{first}
use cosi300a.Raft.Cluster.Safety.{IsStart, made-Elects, made-Fresh, Fresh}
use cosi300a.Raft.Matching.Match.{logs_match}
use cosi300a.Raft.Matching.Traced.{IsSent}
use cosi300a.Raft.Matching.Network.{Network, Ran}
use cosi300a.Raft.Matching.Invariant.{Matching}
use cosi300a.Raft.Matching.Steps.{Ran-Matching}

-- Each of the `n` peers has been started by `Make` and has the first entry of its log and no other, as
-- with an empty persister; and nothing has been sent.
pub record IsNew {C D B : Type 0} (g : Labgob C D B) (n : ℕ) (s : Network C D B) : Type 0 where
  pub start : IsStart g n s.cluster
  pub empty : (i : ℕ) → i < n → (x : LogItem C) × ((s.cluster.nodes i).log ≡ x ∷ [])
  pub no_appends : s.appends ≡ []
  pub no_installs : s.installs ≡ []

made-silent :
    {C D B : Type 0} (g : Labgob C D B) (n i now : ℕ) (ps : Persister B) (b : Raft C D B)
    → make g n i ps now ≡ ok b
    → b.apply_ch ≡ []
unfolding make
made-silent g n i now ps b e = ground (arith, e)

module _ {C D B : Type 0} (g : Labgob C D B) (c : IsCodec g) (n : ℕ) where
  IsNew-Matching : (s : Network C D B) → IsNew g n s → Matching g n s
  IsNew-Matching s h = (
    (λ t index. none),
    record {
      elects = made-Elects g c n s.cluster h.start;
      traced = λ i lt.
          let (x, e) = h.empty i lt in
          let (ps, now, m) = h.start.made i in
          ground (arith, e, made-silent g n i now ps (s.cluster.nodes i) m);
      leads = λ i lt.
          let (ps, now, m) = h.start.made i in
          let f : Fresh n i (s.cluster.nodes i) = made-Fresh g n i now ps (s.cluster.nodes i) m in
          record {
            spent = λ leads. ground (arith, leads, f.state);
            above = λ leads. ground (arith, leads, f.state);
          };
      creators = λ t index e made. ground (arith, made);
      appends = rw h.no_appends tt;
      installs = rw h.no_installs tt;
    },
  )

  -- Before entries of one term and one index, the terms are the same.
  pub logs_agree-terms :
      (s s' : Network C D B) (i k index later : ℕ) (x y p q : LogItem C)
      → IsNew g n s
      → Ran g n s s'
      → i < n
      → k < n
      → get_log_item_at_index (s'.cluster.nodes i).log later ≡ ok x
      → get_log_item_at_index (s'.cluster.nodes k).log later ≡ ok y
      → x.term ≡ y.term
      → index ≤ later
      → get_log_item_at_index (s'.cluster.nodes i).log index ≡ ok p
      → get_log_item_at_index (s'.cluster.nodes k).log index ≡ ok q
      → p.term ≡ q.term
  logs_agree-terms s s' i k index later x y p q new r hi hk ex ey t le ep eq =
      let (created, h) = Ran-Matching g c n (IsNew-Matching s new) r in
      (logs_match created (s'.cluster.nodes i).log (s'.cluster.nodes k).log (h.traced i hi).log
        (h.traced k hk).log index later x y p q le ex ey t ep eq).0

  -- Log matching, in a cluster of `n` peers that start with one entry each, after any run in which
  -- calls of leaders are sent and arrive late, more than once, in any order or never, and peers
  -- vote, campaign, take commands, save snapshots, crash and restart: where the logs of two peers
  -- have entries of the same term at one index, they have the same entry at every index up to there
  -- that is behind the first entry of both. labgob is one that decodes what it encodes.
  pub logs_agree :
      (s s' : Network C D B) (i k index later : ℕ) (x y p q : LogItem C)
      → IsNew g n s
      → Ran g n s s'
      → i < n
      → k < n
      → get_log_item_at_index (s'.cluster.nodes i).log later ≡ ok x
      → get_log_item_at_index (s'.cluster.nodes k).log later ≡ ok y
      → x.term ≡ y.term
      → index ≤ later
      → first (s'.cluster.nodes i).log < index
      → first (s'.cluster.nodes k).log < index
      → get_log_item_at_index (s'.cluster.nodes i).log index ≡ ok p
      → get_log_item_at_index (s'.cluster.nodes k).log index ≡ ok q
      → p ≡ q
  logs_agree s s' i k index later x y p q new r hi hk ex ey t le fi fk ep eq =
      let (created, h) = Ran-Matching g c n (IsNew-Matching s new) r in
      (logs_match created (s'.cluster.nodes i).log (s'.cluster.nodes k).log (h.traced i hi).log
          (h.traced k hk).log index later x y p q le ex ey t ep eq).1
        fi fk

  -- Every entry that a service is sent carries a command and not the dummy of the log, so that the
  -- service's assertion on its type never fails, in a cluster of `n` peers that start with one
  -- entry each, after any run in which calls of leaders are sent and arrive late, more than once,
  -- in any order or never, and peers vote, campaign, take commands, save snapshots, crash and
  -- restart. labgob is one that decodes what it encodes.
  pub sent-IsCommand :
      (s s' : Network C D B) (i k index term : ℕ) (x : Interface C)
      → IsNew g n s
      → Ran g n s s'
      → i < n
      → get_elem? (s'.cluster.nodes i).apply_ch k ≡ some (entry x index term)
      → (v : C) × (x ≡ command v)
  sent-IsCommand s s' i k index term x new r lt at =
      let (created, h) = Ran-Matching g c n (IsNew-Matching s new) r in
      let (v, _, e, _) =
        All-get_elem? (IsSent created) (s'.cluster.nodes i).apply_ch k (h.traced i lt).sent at in
      (v, e)

  -- What the services are sent agrees, in a cluster of `n` peers that start with one entry each,
  -- after any run in which calls of leaders are sent and arrive late, more than once, in any order
  -- or never, and peers vote, campaign, take commands, save snapshots, crash and restart: two
  -- entries of the same index and term that two peers, or one, have sent to their services carry
  -- the same command. labgob is one that decodes what it encodes.
  pub sent_agree :
      (s s' : Network C D B) (i k m l index term : ℕ) (x y : Interface C)
      → IsNew g n s
      → Ran g n s s'
      → i < n
      → k < n
      → get_elem? (s'.cluster.nodes i).apply_ch m ≡ some (entry x index term)
      → get_elem? (s'.cluster.nodes k).apply_ch l ≡ some (entry y index term)
      → x ≡ y
  sent_agree s s' i k m l index term x y new r hi hk em el =
      let (created, h) = Ran-Matching g c n (IsNew-Matching s new) r in
      let (_, _, ex, made) =
        All-get_elem? (IsSent created) (s'.cluster.nodes i).apply_ch m (h.traced i hi).sent em in
      let (_, _, ey, made') =
        All-get_elem? (IsSent created) (s'.cluster.nodes k).apply_ch l (h.traced k hk).sent el in
      ground (arith, ex, ey, made, made')
