-- ===== src/Raft/Cluster/Elects.antt =====
-- The elections of a cluster of src/raft/raft.go over a vote, and over the steps that are no part of one.
use cosi300a.Prelude.{ℕ, ◌≡◌, ◌≢◌, ◌≤◌, inl, inr, true, ok, pos, arith}
use cosi300a.Raft.Types.{Raft, Labgob, IsCodec, RequestVoteArgs, RequestVoteReply}
use cosi300a.Raft.Vote.{request_vote}
use cosi300a.Raft.Run.Steps.{
  Step, Step-Advances, Step-IsDurable, voted, campaigned, heard_vote, appended, installed,
  heard_append, heard_install, started, saved, restarted,
}
use cosi300a.Raft.Run.OneVote.{request_vote-granted}
use cosi300a.Raft.Cluster.Quiet.{
  Quiet, Quiet-Gains, request_vote-Quiet, append_entries-Quiet, install_snapshot-Quiet,
  handle_append_reply-Quiet, handle_snapshot_reply-Quiet, start-Quiet, save_snapshot-Quiet,
  make-Quiet,
}
use cosi300a.Raft.Cluster.Steps.{Votes, Cluster, with_node, mark, IsBackground}
use cosi300a.Raft.Cluster.Leaders.{
  Sub, Unique, Sub-mark, mark-new, Unique-mark, IsElecting, IsElecting-Sub, cast-Advances,
  IsElecting-Gains, place,
}

-- Each peer goes with the votes, a peer has one vote in a term, and a counted vote was cast.
pub record Elects {C D B : Type 0} (g : Labgob C D B) (n : ℕ) (s : Cluster C D B) : Type 0 where
  pub nodes : (i : ℕ) → IsElecting g n s.answered s.counted i (s.nodes i)
  pub unique : Unique s.answered
  pub cast : Sub s.counted s.answered

module _ {C D B : Type 0} (g : Labgob C D B) where
  pub background-Quiet : (a b : Raft C D B) (step : Step g a b) → IsBackground g step → Quiet a b
  background-Quiet a b (voted now args reply e) k = elim k [ ]
  background-Quiet a b (campaigned now timeout calls e) k = elim k [ ]
  background-Quiet a b (heard_vote now reply e) k = elim k [ ]
  background-Quiet a b (appended now args reply e) k =
      ground (arith, append_entries-Quiet g now a args)
  background-Quiet a b (installed now arg reply e) k =
      ground (arith, install_snapshot-Quiet g now a arg)
  background-Quiet a b (heard_append now j args reply e) k =
      ground (arith, handle_append_reply-Quiet g now a j args reply)
  background-Quiet a b (heard_install now j args reply e) k =
      ground (arith, handle_snapshot_reply-Quiet g now a j args reply)
  background-Quiet a b (started c result e) k = ground (arith, start-Quiet g 0 a c)
  background-Quiet a b (saved index term bytes e) k =
      ground (arith, save_snapshot-Quiet g 0 a index term bytes)
  background-Quiet a b (restarted now e) k = make-Quiet g now a b e

module _ {C D B : Type 0} (g : Labgob C D B) (c : IsCodec g) (n : ℕ) where
  pub background-Elects :
      (s : Cluster C D B) (i : ℕ) (b : Raft C D B) (step : Step g (s.nodes i) b)
      → Elects g n s
      → IsBackground g step
      → Elects g n (record s { nodes = with_node s.nodes i b })
  background-Elects s i b step h k =
      let a = s.nodes i in
      let moved : IsElecting g n s.answered s.counted i b =
        IsElecting-Gains g n s.answered s.counted s.answered s.counted i 0 a b (h.nodes i)
          (Step-IsDurable g c (h.nodes i).durable step)
          (Quiet-Gains g 0 a b (background-Quiet g a b step k))
          (cast-Advances g n s.answered i a b (h.nodes i).cast
            (Step-Advances g c (h.nodes i).durable step))
          (λ lt. omega arith) in
      record {
        nodes = place g n s.nodes i b s.answered s.counted moved (λ k ne. h.nodes k);
        unique = h.unique;
        cast = h.cast;
      }

  pub vote-Elects :
      (s : Cluster C D B) (i now : ℕ) (args : RequestVoteArgs) (reply : RequestVoteReply)
      (b : Raft C D B)
      → Elects g n s
      → request_vote g now args (s.nodes i) ≡ ok (reply, b)
      → Elects g n (record s {
        nodes = with_node s.nodes i b;
        answered = mark reply.vote_granted args.term i args.candidate_id s.answered;
      })
  vote-Elects s i now args reply b h e = record {
    nodes = place g n s.nodes i b answered s.counted moved (λ k ne.
        IsElecting-Sub g n s.answered s.counted answered s.counted k (s.nodes k) (h.nodes k)
          (λ t d m. other k t d ne m) (λ t j d m. m));
    unique = Unique-mark reply.vote_granted args.term i args.candidate_id s.answered h.unique fresh;
    cast = λ t j d m.
        Sub-mark reply.vote_granted args.term i args.candidate_id s.answered t j d (h.cast t j d m);
  }
    where
      answered : Votes
      answered = mark reply.vote_granted args.term i args.candidate_id s.answered

      step : Step g (s.nodes i) b
      step = voted now args reply e

      other :
          (k t d : ℕ)
          → i ≢ k
          → mark reply.vote_granted args.term i args.candidate_id s.answered t k d ≡ true
          → s.answered t k d ≡ true
      other k t d ne m =
          elim (mark-new reply.vote_granted args.term i args.candidate_id s.answered t k d m) [
            | inl old ↦ old
            | inr (_, _, same, _) ↦ absurd (ne same)
          ]

      fresh :
          reply.vote_granted ≡ true
          → (d : ℕ) → s.answered args.term i d ≡ true
          → args.candidate_id ≡ d
      fresh granted d old = ground (
        arith,
        request_vote-granted g now args (s.nodes i) b reply e granted,
        (h.nodes i).cast args.term d old,
        (Step-Advances g c (h.nodes i).durable step).term_le,
      )

      cast :
          (t d : ℕ)
          → mark reply.vote_granted args.term i args.candidate_id s.answered t i d ≡ true
          → (t ≤ b.current_term) × (t ≡ b.current_term → b.vote_for ≡ pos d)
      cast t d m =
          elim (mark-new reply.vote_granted args.term i args.candidate_id s.answered t i d m) [
            | inl old ↦
                cast-Advances g n s.answered i (s.nodes i) b (h.nodes i).cast
                  (Step-Advances g c (h.nodes i).durable step) t d old
            | inr (granted, et, _, ed) ↦
                ground
                  (arith, et, ed, request_vote-granted g now args (s.nodes i) b reply e granted)
          ]

      moved : IsElecting g n answered s.counted i b
      moved =
          IsElecting-Gains g n s.answered s.counted answered s.counted i 0 (s.nodes i) b (h.nodes i)
            (Step-IsDurable g c (h.nodes i).durable step)
            (Quiet-Gains g 0 (s.nodes i) b
              (ground (arith, e, request_vote-Quiet g now (s.nodes i) args)))
            cast (λ lt. omega arith)
