-- ===== src/Tests/Tester.antt =====
-- The tester of src/raft/config.go on a cluster of three peers that has elected its first peer.
use cosi300a.Prelude.{
  ℕ, ◌-◌, ◌≤◌, ◌⊎◌, ◌≡◌, refl, Bool, true, ok, panic, some, List, [], ◌∷◌, pos, lookup, nat_key,
  arith,
}
use cosi300a.Raft.Types.{ApplyMsg, entry, Interface, command}
use cosi300a.Raft.Cluster.Steps.{Reached}
use cosi300a.Raft.Cluster.Ever.{one_leader_ever}
use cosi300a.Raft.Tester.{check_one_leader, check_terms, check_no_leader}
use cosi300a.Raft.Tester.Applied.{
  Applied, interface_key, is_some, read_apply_ch, read_all, n_committed, make_applied,
}
use cosi300a.Raft.Tester.Agreed.{n_committed_lem}
use cosi300a.Raft.Tester.OneLeader.{seen}
use cosi300a.Tests.Codec.{codec-IsCodec, gob}
use cosi300a.Tests.Election.{System, first, decided, chief, first-IsStart, elects}

abbrev all : ℕ → Bool
all i = true

abbrev watched : ℕ → System
watched i = decided

finds : check_one_leader all 3 (λ t. seen watched) ≡ ok 0
unfolding check_one_leader cosi300a.Raft.Tester.tries cosi300a.Raft.Tester.last_leader
    cosi300a.Raft.Tester.last_term_with_leader cosi300a.Raft.Tester.leaders_by_term
    cosi300a.Raft.Node.get_state cosi300a.Prelude.insert cosi300a.Prelude.lookup
finds = refl

one_leader_ever_example : chief.me ≡ (decided.nodes 0).me
one_leader_ever_example =
    one_leader_ever gob (codec-IsCodec 0) 3 first decided decided 0 0 first-IsStart elects
      Reached.begin (omega arith) (omega arith) refl refl refl

abbrev committed : Applied ℕ
committed = record {
  logs = ((1, command 7) ∷ []) ∷ ((1, command 7) ∷ (2, command 8) ∷ []) ∷ [];
  max_index = 2;
}

abbrev messages : List (ℕ × ApplyMsg ℕ ℕ)
messages = (1, entry (command 7) 1 1) ∷ (0, entry (command 7) 1 1) ∷ (1, entry (command 8) 2 3) ∷ []

reads_messages : read_all messages (make_applied 2) ≡ ok committed
unfolding read_all read_apply_ch cosi300a.Raft.Tester.Applied.has_other lookup
    cosi300a.Prelude.insert
reads_messages = refl

abbrev other : ApplyMsg ℕ ℕ
other = entry (command 9) 2 3

abbrev short : List (ℕ × Interface ℕ)
short = (1, command 7) ∷ []

-- A second command at one index ends the test.
ends : read_apply_ch 0 other committed ≡ panic
unfolding read_apply_ch cosi300a.Raft.Tester.Applied.has_other lookup
ends = refl

n_committed_lem_example :
    (n_committed 1 committed ≡ ok (2, some (command 7)))
    × ((1 ≤ 1) ⊎ (is_some (lookup (1 - 1) short) ≡ true))
unfolding lookup
n_committed_lem_example =
    n_committed_lem 2 messages committed 1 0 short (command 7) reads_messages refl refl

agrees : check_terms all decided.nodes 2 ≡ ok (pos 1)
unfolding check_terms cosi300a.Raft.Node.get_state
agrees = refl

differs : check_terms all decided.nodes 3 ≡ panic
unfolding check_terms cosi300a.Raft.Node.get_state
differs = refl

leads : check_no_leader all decided.nodes 1 ≡ panic
unfolding check_no_leader cosi300a.Raft.Node.get_state
leads = refl
