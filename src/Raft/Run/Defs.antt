-- ===== src/Raft/Run/Defs.antt =====
-- What a step of a peer keeps: its term and vote, and what its persister holds.
use cosi300a.Prelude.{ltb, true, ◌≤◌, ◌≡◌, ◌≢◌, some, minus_one}
use cosi300a.Raft.Types.{PersistState, Raft, Labgob}
use cosi300a.Raft.Persister.{read_raft_state}

-- The term never falls, and a vote that is cast stays cast for the term.
pub record Advances {C D B : Type 0} (a b : Raft C D B) : Type 0 where
  pub term_le : a.current_term ≤ b.current_term
  pub vote_kept : a.current_term ≡ b.current_term → a.vote_for ≢ minus_one → b.vote_for ≡ a.vote_for

-- What the source calls persistent.
abbrev pub persistent : {C D B : Type 0} → Raft C D B → PersistState C
persistent rf = record { term = rf.current_term; vote_for = rf.vote_for; log = rf.log }

-- The persister holds the term, the vote and the log, and is not empty.
pub record IsDurable {C D B : Type 0} (g : Labgob C D B) (rf : Raft C D B) : Type 0 where
  pub saved : g.decode_state (read_raft_state rf.persister) ≡ some (persistent rf)
  pub nonempty : ltb 0 (g.len (read_raft_state rf.persister)) ≡ true

-- A step that sends messages to the service and moves the two commit positions changes nothing else.
pub record OnlyCommits {C D B : Type 0} (a b : Raft C D B) : Type 0 where
  pub peers : b.peers ≡ a.peers
  pub persister : b.persister ≡ a.persister
  pub me : b.me ≡ a.me
  pub state : b.state ≡ a.state
  pub current_term : b.current_term ≡ a.current_term
  pub vote_for : b.vote_for ≡ a.vote_for
  pub log : b.log ≡ a.log
  pub next_index : b.next_index ≡ a.next_index
  pub match_index : b.match_index ≡ a.match_index
  pub vote_count : b.vote_count ≡ a.vote_count

-- A step that changes nothing persistent, and leaves the persister alone.
pub record KeepsPersistent {C D B : Type 0} (a b : Raft C D B) : Type 0 where
  pub persister : b.persister ≡ a.persister
  pub current_term : b.current_term ≡ a.current_term
  pub vote_for : b.vote_for ≡ a.vote_for
  pub log : b.log ≡ a.log
