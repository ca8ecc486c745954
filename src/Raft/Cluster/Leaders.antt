-- ===== src/Raft/Cluster/Leaders.antt =====
-- What the steps of a cluster of src/raft/raft.go keep of its elections.
use cosi300a.Prelude.{
  ℕ, ◌+◌, ◌≡◌, ◌≢◌, ◌<◌, ◌≤◌, ◌⊎◌, inl, inr, ap, sym, subst, ◌∙◌, fun_ext, Bool, true, false,
  nat_eq, pos, arith, Bool-cases,
}
use cosi300a.Raft.Types.{Raft, Labgob, leader}
use cosi300a.Raft.Log.{get_majority_count}
use cosi300a.Raft.Run.Defs.{Advances, IsDurable}
use cosi300a.Raft.Cluster.Tally.{tally, tally_mono, also, tally-also}
use cosi300a.Raft.Cluster.Quiet.{Gains}
use cosi300a.Raft.Cluster.Steps.{Votes, with_node, mark}

-- The votes in term `t` for peer `c`, among the first `n` peers.
abbrev pub votes_for : Votes → ℕ → ℕ → ℕ → ℕ
votes_for votes n t c = tally (λ j. votes t j c) n

abbrev pub Sub : Votes → Votes → Type 0
Sub votes more = (t j c : ℕ) → votes t j c ≡ true → more t j c ≡ true

abbrev pub Unique : Votes → Type 0
Unique votes = (t j c d : ℕ) → votes t j c ≡ true → votes t j d ≡ true → c ≡ d

pub Sub-mark : (granted : Bool) (t j c : ℕ) (votes : Votes) → Sub votes (mark granted t j c votes)
Sub-mark granted t j c votes t' j' c' h = ground arith

pub mark-new :
    (granted : Bool) (t j c : ℕ) (votes : Votes) (t' j' c' : ℕ)
    → mark granted t j c votes t' j' c' ≡ true
    → (votes t' j' c' ≡ true) ⊎ ((granted ≡ true) × (t ≡ t') × (j ≡ j') × (c ≡ c'))
mark-new granted t j c votes t' j' c' h = ground arith

pub Unique-mark :
    (granted : Bool) (t j c : ℕ) (votes : Votes)
    → Unique votes
    → (granted ≡ true → (d : ℕ) → votes t j d ≡ true → c ≡ d)
    → Unique (mark granted t j c votes)
Unique-mark granted t j c votes u new t' j' c' d' h k =
    elim (mark-new granted t j c votes t' j' c' h) [
      | inl old ↦ elim (mark-new granted t j c votes t' j' d' k) [
        | inl old' ↦ u t' j' c' d' old old'
        | inr (yes', et, ej, ed) ↦ sym (new yes' c' (rw (et, ej) old)) ∙ ed
      ]
      | inr (yes', et, ej, ec) ↦ elim (mark-new granted t j c votes t' j' d' k) [
        | inl old' ↦ sym ec ∙ new yes' d' (rw (et, ej) old')
        | inr (_, _, _, ed) ↦ sym ec ∙ ed
      ]
    ]

pub votes_for-mark :
    (n t j c : ℕ) (votes : Votes)
    → j < n
    → votes t j c ≡ false
    → votes_for (mark true t j c votes) n t c ≡ votes_for votes n t c + 1
votes_for-mark n t j c votes lt fresh =
    ap (λ p. tally p n) (fun_ext λ k. same k) ∙ tally-also (λ k. votes t k c) j n lt fresh
  where
    same : (k : ℕ) → mark true t j c votes t k c ≡ also (λ k. votes t k c) j k
    same k = ground arith

pub votes_for_mono :
    (n t c : ℕ) (votes more : Votes) → Sub votes more → votes_for votes n t c ≤ votes_for more n t c
votes_for_mono n t c votes more h = tally_mono (λ j. votes t j c) (λ j. more t j c) n (λ j. h t j c)

-- What the votes say of peer `i` in state `a`.
pub record IsElecting {C D B : Type 0} (g : Labgob C D B) (n : ℕ) (answered counted : Votes) (i : ℕ)
    (a : Raft C D B) : Type 0 where
  pub me : a.me ≡ i
  pub peers : a.peers ≡ n
  pub durable : IsDurable g a
  pub cast :
      (t c : ℕ)
      → answered t i c ≡ true
      → (t ≤ a.current_term) × (t ≡ a.current_term → a.vote_for ≡ pos c)
  pub enough : i < n → a.vote_count ≤ votes_for counted n a.current_term i
  pub elected :
      i < n → a.state ≡ leader → get_majority_count n ≤ votes_for counted n a.current_term i

module _ {C D B : Type 0} (g : Labgob C D B) (n : ℕ) where
  -- More votes, but none of the peer's own.
  pub IsElecting-Sub :
      (answered counted answered' counted' : Votes) (i : ℕ) (a : Raft C D B)
      → IsElecting g n answered counted i a
      → ((t c : ℕ) → answered' t i c ≡ true → answered t i c ≡ true)
      → Sub counted counted'
      → IsElecting g n answered' counted' i a
  IsElecting-Sub answered counted answered' counted' i a h same more = record {
    me = h.me;
    peers = h.peers;
    durable = h.durable;
    cast = λ t c e. h.cast t c (same t c e);
    enough =
        λ lt. omega (arith, h.enough lt, votes_for_mono n a.current_term i counted counted' more);
    elected = λ lt leads.
        omega (arith, h.elected lt leads, votes_for_mono n a.current_term i counted counted' more);
  }

  -- What was cast stays cast.
  pub cast-Advances :
      (answered : Votes) (i : ℕ) (a b : Raft C D B)
      → ((t c : ℕ)
          → answered t i c ≡ true
          → (t ≤ a.current_term) × (t ≡ a.current_term → a.vote_for ≡ pos c))
      → Advances a b
      → (t c : ℕ) → answered t i c ≡ true
      → (t ≤ b.current_term) × (t ≡ b.current_term → b.vote_for ≡ pos c)
  cast-Advances answered i a b h adv t c e = ground (arith, h t c e, adv.term_le, adv.vote_kept)

  -- A step of peer `i` that counts `gain` votes that are there.
  pub IsElecting-Gains :
      (answered counted answered' counted' : Votes) (i gain : ℕ) (a b : Raft C D B)
      → IsElecting g n answered counted i a
      → IsDurable g b
      → Gains gain a b
      → ((t c : ℕ)
          → answered' t i c ≡ true
          → (t ≤ b.current_term) × (t ≡ b.current_term → b.vote_for ≡ pos c))
      → (i < n
          → votes_for counted n a.current_term i + gain ≤ votes_for counted' n a.current_term i)
      → IsElecting g n answered' counted' i b
  IsElecting-Gains answered counted answered' counted' i gain a b h d gains cast room = record {
    me = gains.me ∙ h.me;
    peers = gains.peers ∙ h.peers;
    durable = d;
    cast = cast;
    enough = λ lt. ground (arith, gains.counted, h.enough lt, room lt, at_term);
    elected = λ lt leads.
        ground (arith, gains.leads leads, h.elected lt, h.enough lt, h.peers, room lt, at_term);
  }
    where
      at_term :
          b.current_term ≡ a.current_term
          → votes_for counted' n b.current_term i ≡ votes_for counted' n a.current_term i
      at_term e = ap (λ t. votes_for counted' n t i) e

  -- Peer `i` is in its new state, the others are as they were.
  pub place :
      (nodes : ℕ → Raft C D B) (i : ℕ) (b : Raft C D B) (answered counted : Votes)
      → IsElecting g n answered counted i b
      → ((k : ℕ) → i ≢ k → IsElecting g n answered counted k (nodes k))
      → (k : ℕ) → IsElecting g n answered counted k (with_node nodes i b k)
  place nodes i b answered counted h others k = elim (Bool-cases (nat_eq i k)) [
    | inl same ↦ rw same (subst (λ m. IsElecting g n answered counted m b) (ground arith) h)
    | inr other ↦ rw other (others k (λ e. ground (arith, e)))
  ]
