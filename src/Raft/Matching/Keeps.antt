-- ===== src/Raft/Matching/Keeps.antt =====
-- The invariant of the matching of logs over the steps of src/raft/raft.go that create no entry.
use cosi300a.Prelude.{
  ℕ, ◌≡◌, ◌≢◌, ◌<◌, ◌≤◌, ◌⊎◌, inl, inr, sym, subst, some, arith, true, false, ok, ltb, List,
  All-get_elem?, get_elem?, After,
}
use cosi300a.Raft.Types.{
  Raft, Labgob, IsCodec, leader, RequestVoteArgs, RequestVoteReply, AppendEntriesArgs,
  AppendEntriesReply, InstallSnapshotArg, InstallSnapshotReply,
}
use cosi300a.Raft.Log.{get_majority_count}
use cosi300a.Raft.Append.{append_entries}
use cosi300a.Raft.Snapshot.{install_snapshot}
use cosi300a.Raft.Vote.{request_vote, election_tick, handle_vote_reply}
use cosi300a.Raft.Run.Steps.{Step, Step-Advances, voted, heard_vote, appended, installed}
use cosi300a.Raft.Cluster.Steps.{with_node, mark, IsBackground}
use cosi300a.Raft.Cluster.Leaders.{votes_for, votes_for_mono, Sub-mark}
use cosi300a.Raft.Cluster.Quiet.{
  Quiet, Quiet-Gains, Gains, request_vote-Quiet, handle_vote_reply-Gains, gain_of,
  election_tick-Campaigns, Campaigns,
}
use cosi300a.Raft.Cluster.Elects.{background-Elects, background-Quiet, vote-Elects}
use cosi300a.Raft.Cluster.Candidate.{hear-Elects, hear_room, campaign-Elects}
use cosi300a.Raft.Cluster.Safety.{majorities_agree}
use cosi300a.Raft.Matching.Chain.{Created}
use cosi300a.Raft.Matching.Continues.{
  Continues, request_vote-Continues, election_tick-Continues, handle_vote_reply-Continues,
  install_snapshot-Continues, append_entries-Continues,
}
use cosi300a.Raft.Matching.Network.{Network}
use cosi300a.Raft.Matching.Invariant.{IsElected-Sub, IsCall, IsAppend, IsInstall, Matches}
use cosi300a.Raft.Matching.Moves.{placed-Matches, gains-Matches}

module _ {C D B : Type 0} (g : Labgob C D B) (c : IsCodec g) (n : ℕ) (created : Created C)
    (s : Network C D B) (h : Matches g n created s) (i : ℕ) (lt : i < n) where
  abbrev a : Raft C D B
  a = s.cluster.nodes i

  -- A step that is no part of an election, and continues the log.
  pub quiet-Matches :
      (b : Raft C D B) (step : Step g a b)
      → IsBackground g step
      → Continues created a b
      → Matches g n created
          (record s { cluster = record s.cluster { nodes = with_node s.cluster.nodes i b } })
  quiet-Matches b step k cont =
      let quiet = background-Quiet g a b step k in
      gains-Matches g c n created s h i lt b s.cluster.answered s.cluster.counted (λ t j d m. m)
        (background-Elects g c n s.cluster i b step h.elects k) 0 (Quiet-Gains g 0 a b quiet)
        (omega arith) (Step-Advances g c (h.elects.nodes i).durable step).term_le
        (λ leads. inl (quiet.leads leads).0) cont

  -- A leader is sent no call of its own term.
  away : (from t : ℕ) → IsCall n s.cluster.counted i from t → a.state ≡ leader → t ≢ a.current_term
  away from t call leads e = call.other (
      majorities_agree g c n s.cluster i from t h.elects
        (subst (λ u. get_majority_count n ≤ votes_for s.cluster.counted n u i) (sym e)
          ((h.elects.nodes i).elected lt leads))
        call.elected)

  pub receive_append-Matches :
      (k now : ℕ) (args : AppendEntriesArgs C) (reply : AppendEntriesReply) (b : Raft C D B)
      → get_elem? s.appends k ≡ some (i, args)
      → append_entries g now args a ≡ ok (reply, b)
      → Matches g n created
          (record s { cluster = record s.cluster { nodes = with_node s.cluster.nodes i b } })
  receive_append-Matches k now args reply b sent e =
      let (call, chained) =
        All-get_elem? (IsAppend created n s.cluster.counted) s.appends k h.appends sent in
      let cont = subst (After (Continues created a)) e (
        append_entries-Continues g created now a (h.traced i lt) args
          (away args.leader_id args.term call) chained) in
      quiet-Matches b (appended now args reply e) tt cont

  pub receive_install-Matches :
      (k now : ℕ) (arg : InstallSnapshotArg D) (reply : InstallSnapshotReply) (b : Raft C D B)
      → get_elem? s.installs k ≡ some (i, arg)
      → install_snapshot g now arg a ≡ ok (reply, b)
      → Matches g n created
          (record s { cluster = record s.cluster { nodes = with_node s.cluster.nodes i b } })
  receive_install-Matches k now arg reply b sent e =
      let call = All-get_elem? (IsInstall n s.cluster.counted) s.installs k h.installs sent in
      let cont = subst (After (Continues created a)) e (
        install_snapshot-Continues g created now a (h.traced i lt) arg
          (away arg.leader_id arg.term call)) in
      quiet-Matches b (installed now arg reply e) tt cont

  pub vote-Matches :
      (now : ℕ) (args : RequestVoteArgs) (reply : RequestVoteReply) (b : Raft C D B)
      → request_vote g now args a ≡ ok (reply, b)
      → Matches g n created (record s {
        cluster = record s.cluster {
          nodes = with_node s.cluster.nodes i b;
          answered = mark reply.vote_granted args.term i args.candidate_id s.cluster.answered;
        };
      })
  vote-Matches now args reply b e =
      let quiet = subst (After (Quiet a)) e (request_vote-Quiet g now a args) in
      let cont =
        subst (After (Continues created a)) e
          (request_vote-Continues g created now a (h.traced i lt) args) in
      gains-Matches g c n created s h i lt b
        (mark reply.vote_granted args.term i args.candidate_id s.cluster.answered) s.cluster.counted
        (λ t j d m. m) (vote-Elects g c n s.cluster i now args reply b h.elects e) 0
        (Quiet-Gains g 0 a b quiet) (omega arith)
        (Step-Advances g c (h.elects.nodes i).durable (voted now args reply e)).term_le
        (λ leads. inl (quiet.leads leads).0) cont

  wins :
      (now : ℕ) (reply : RequestVoteReply) (b : Raft C D B)
      → handle_vote_reply g now reply a ≡ ok (tt, b)
      → b.state ≡ leader
      → (a.state ≡ leader) ⊎ (b.vote_count ≡ 0)
  unfolding handle_vote_reply
  wins now reply b e leads = ground (arith, e, leads)

  pub hear-Matches :
      (j now : ℕ) (reply : RequestVoteReply) (b : Raft C D B)
      → handle_vote_reply g now reply a ≡ ok (tt, b)
      → j < n
      → (reply.vote_granted ≡ true → s.cluster.answered reply.term j i ≡ true)
      → (reply.vote_granted ≡ true → s.cluster.counted reply.term j i ≡ false)
      → Matches g n created (record s {
        cluster = record s.cluster {
          nodes = with_node s.cluster.nodes i b;
          counted = mark reply.vote_granted reply.term j i s.cluster.counted;
        };
      })
  hear-Matches j now reply b e jn was fresh =
      let gains =
        subst (After (Gains (gain_of reply a) a)) e (handle_vote_reply-Gains g now a reply) in
      let cont =
        subst (After (Continues created a)) e
          (handle_vote_reply-Continues g created now a (h.traced i lt) reply) in
      gains-Matches g c n created s h i lt b s.cluster.answered
        (mark reply.vote_granted reply.term j i s.cluster.counted)
        (Sub-mark reply.vote_granted reply.term j i s.cluster.counted)
        (hear-Elects g c n s.cluster i j now reply b h.elects e jn was fresh) (gain_of reply a)
        gains (hear_room g c n s.cluster i j reply jn fresh)
        (Step-Advances g c (h.elects.nodes i).durable (heard_vote now reply e)).term_le
        (wins now reply b e) cont

  pub campaign-Matches :
      (now timeout : ℕ) (calls : List (ℕ × RequestVoteArgs)) (b : Raft C D B)
      → election_tick g now timeout a ≡ ok (calls, b)
      → Matches g n created (record s {
        cluster = record {
          nodes = with_node s.cluster.nodes i b;
          answered = mark (ltb a.current_term b.current_term) b.current_term i i s.cluster.answered;
          counted = mark (ltb a.current_term b.current_term) b.current_term i i s.cluster.counted;
        };
      })
  campaign-Matches now timeout calls b e =
      let up = ltb a.current_term b.current_term in
      let answered = mark up b.current_term i i s.cluster.answered in
      let counted = mark up b.current_term i i s.cluster.counted in
      let more = Sub-mark up b.current_term i i s.cluster.counted in
      let elects = campaign-Elects g c n s.cluster i now timeout calls b h.elects e in
      let cont =
        subst (After (Continues created a)) e
          (election_tick-Continues g created now a (h.traced i lt) timeout) in
      elim (subst (After (λ (x : Raft C D B). (x ≡ a) ⊎ Campaigns a x)) e
        (election_tick-Campaigns g now a timeout)) [
          | inl same ↦
              gains-Matches g c n created s h i lt b answered counted more elects 0
                (ground (arith, same))
                (omega (arith, votes_for_mono n a.current_term i s.cluster.counted counted more))
                (ground (arith, same)) (λ leads. ground (arith, same, leads)) cont
          | inr k ↦
              placed-Matches g c n created s h i lt b answered counted more elects cont.traced
                (record {
                  spent = λ leads. ground (arith, leads, k.state);
                  above = λ leads. ground (arith, leads, k.state);
                })
                (λ t was. record {
                  within = lt;
                  elected = (IsElected-Sub n s.cluster.counted counted more t i a was).elected;
                  reached = omega (arith, was.reached, k.current_term);
                  spent = λ at. absurd (omega (arith, at, was.reached, k.current_term));
                })
        ]
