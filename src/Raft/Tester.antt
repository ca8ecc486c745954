-- ===== src/Raft/Tester.antt =====
-- src/raft/config.go: what the tests check of the peers, `checkOneLeader`, `checkTerms`,
-- `checkNoLeader` and `nCommitted`. A test that calls `t.Fatalf` ends, as one that panics. `rafts i`
-- is the peer `i` as `GetState` finds it: each call takes the lock of its own peer, at its own time.
use cosi300a.Prelude.{
  ℕ, zero, suc, ◌+◌, Bool, true, ◌&&◌, not, List, [], ◌∷◌, ◌++◌, Option, none, some, ℤ, pos,
  minus_one, ltb_ℤ, eq_ℤ, ltb, nat_eq, Result, ok, panic, if◌then◌else◌, length, get_elem?, lookup,
  insert, int_key,
}
use cosi300a.Raft.Types.{Raft}
use cosi300a.Raft.Node.{get_state}
pub mod Leaders
pub mod OneLeader
pub mod Terms
pub mod Crash
pub mod Applied
pub mod Agreed

-- Go's `m[k]` on a map to slices.
abbrev pub leaders_of : ℤ → List (ℤ × List ℕ) → List ℕ
leaders_of term leaders = elim (lookup term leaders) [ none ↦ [] | some who ↦ who ]

-- The loop over the map: fails if a term has two leaders, and finds the last term.
unfoldable pub last_term_with_leader : List (ℤ × List ℕ) → ℤ → Result ℤ
last_term_with_leader [] last = ok last
last_term_with_leader ((term, who) ∷ rest) last =
    let found = last_term_with_leader rest (if ltb_ℤ last term then term else last) in
    if ltb 1 (length who) then panic else found

-- What one try makes of the map: the first leader of the last term, if there is a leader.
unfoldable pub last_leader : List (ℤ × List ℕ) → Result (Option ℕ)
last_leader leaders = elim (last_term_with_leader leaders minus_one) [
  | panic ↦ panic
  | ok last ↦
      if nat_eq (length leaders) 0
      then ok none
      else elim (get_elem? (leaders_of last leaders) 0) [ none ↦ panic | some who ↦ ok (some who) ]
]

module _ {C D B : Type 0} (connected : ℕ → Bool) where
  -- The loop over the peers: `leaders` after the first `i` of them.
  unfoldable pub leaders_by_term : (ℕ → Raft C D B) → ℕ → List (ℤ × List ℕ)
  leaders_by_term rafts zero = []
  leaders_by_term rafts (suc i) =
      let leaders = leaders_by_term rafts i in
      let (term, leader) = get_state (rafts i) in
      if connected i && leader
      then insert (pos term) (leaders_of (pos term) leaders ++ i ∷ []) leaders
      else leaders

  -- One try.
  abbrev pub find_leader : ℕ → (ℕ → Raft C D B) → Result (Option ℕ)
  find_leader n rafts = last_leader (leaders_by_term rafts n)

  -- `left` tries from the try `iters` on; `rafts iters` is what that try finds.
  unfoldable pub tries : ℕ → ℕ → ℕ → (ℕ → ℕ → Raft C D B) → Result ℕ
  tries zero iters n rafts = panic
  tries (suc left) iters n rafts =
      let next = tries left (iters + 1) n rafts in
      elim (find_leader n (rafts iters)) [ panic ↦ panic | ok none ↦ next | ok (some who) ↦ ok who ]

  unfoldable pub check_one_leader : ℕ → (ℕ → ℕ → Raft C D B) → Result ℕ
  check_one_leader n rafts = tries 10 0 n rafts

  -- `term` after the first `i` peers.
  unfoldable pub check_terms : (ℕ → Raft C D B) → ℕ → Result ℤ
  check_terms rafts zero = ok minus_one
  check_terms rafts (suc i) = elim (check_terms rafts i) [
    | panic ↦ panic
    | ok term ↦
        let xterm = pos (get_state (rafts i)).0 in
        if not (connected i)
        then ok term
        else if eq_ℤ term minus_one
        then ok xterm
        else if not (eq_ℤ term xterm)
        then panic
        else ok term
  ]

  unfoldable pub check_no_leader : (ℕ → Raft C D B) → ℕ → Result {0} Unit
  check_no_leader rafts zero = ok tt
  check_no_leader rafts (suc i) = elim (check_no_leader rafts i) [
    | panic ↦ panic
    | ok _ ↦ if connected i && (get_state (rafts i)).1 then panic else ok tt
  ]
