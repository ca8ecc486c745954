-- ===== src/Raft/Tester/Leaders.antt =====
-- `checkOneLeader` of src/raft/config.go, on peers of which no two lead in one term.
use cosi300a.Prelude.{
  ℕ, zero, suc, ltb_ℤ, if◌then◌else◌, sym, ◌≡◌, ◌<◌, ◌≤◌, ◌⊎◌, inl, inr, refl, Bool, true, ◌&&◌,
  List, [], ◌∷◌, none, some, ℤ, pos, minus_one, leb_ℤ, ok, arith, All, lookup, insert,
  lookup-insert, insert-All, lookup-All, int_key, Bool-cases, Option-cases, All_mono, nat_eq, subst,
}
use cosi300a.Raft.Types.{Raft, leader, is_leader}
use cosi300a.Raft.Node.{get_state}
use cosi300a.Raft.Tester.{last_term_with_leader, last_leader, leaders_by_term, find_leader}

module _ {C D B : Type 0} (connected : ℕ → Bool) (rafts : ℕ → Raft C D B) where
  -- One of the first `n` peers, connected, that leads.
  pub record Leads (n k : ℕ) : Type 0 where
    pub lt : k < n
    pub is_connected : connected k ≡ true
    pub leads : (rafts k).state ≡ leader

  -- What the map says of a term: that one peer leads in it.
  abbrev Sole : ℕ → ℤ → List ℕ → Type 0
  Sole n term who = (k : ℕ) × Leads n k × (term ≡ pos (rafts k).current_term) × (who ≡ k ∷ [])

  record Found (n : ℕ) (leaders : List (ℤ × List ℕ)) : Type 0 where
    pub sole : All (λ e. Sole n e.0 e.1) leaders
    pub each : (k : ℕ) → Leads n k → lookup (pos (rafts k).current_term) leaders ≡ some (k ∷ [])

  Leads-below : (n m k : ℕ) → n ≤ m → Leads n k → Leads m k
  Leads-below n m k h l = record {
    lt = omega (arith, l.lt);
    is_connected = l.is_connected;
    leads = l.leads;
  }

  -- No two of the peers lead in one term.
  abbrev pub OnePerTerm : ℕ → Type 0
  OnePerTerm n =
      (i k : ℕ) → Leads n i → Leads n k → (rafts i).current_term ≡ (rafts k).current_term → i ≡ k

  -- The last of the peers, or one before it.
  Leads-split : (n k : ℕ) → Leads (suc n) k → (k ≡ n) ⊎ Leads n k
  Leads-split n k l = elim (Bool-cases (nat_eq k n)) [
    | inl same ↦ inl (ground (arith, same))
    | inr other ↦ inr (record {
      lt = ground (arith, other, l.lt);
      is_connected = l.is_connected;
      leads = l.leads;
    })
  ]

  Sole-below : (n m : ℕ) (term : ℤ) (who : List ℕ) → n ≤ m → Sole n term who → Sole m term who
  Sole-below n m term who h (k, l, same, only) = (k, Leads-below n m k h l, same, only)

  absent :
      (n i : ℕ) (leaders : List (ℤ × List ℕ))
      → OnePerTerm n
      → suc i ≤ n
      → Leads (suc i) i
      → Found i leaders
      → lookup (pos (rafts i).current_term) leaders ≡ none
  absent n i leaders one le l h =
      elim (Option-cases (lookup (pos (rafts i).current_term) leaders)) [
        | inl none' ↦ none'
        | inr (who, e) ↦
            let (k, l', same, _) =
              lookup-All (Sole i) (pos (rafts i).current_term) leaders h.sole e in
            let k≡i =
              one k i (Leads-below i n k (omega arith) l') (Leads-below (suc i) n i le l)
                (ground (arith, same)) in
            absurd (omega (arith, l'.lt, k≡i))
      ]

  skip-Found :
      (i : ℕ) (leaders : List (ℤ × List ℕ))
      → ¬ Leads (suc i) i
      → Found i leaders
      → Found (suc i) leaders
  skip-Found i leaders idle h = record {
    sole =
        All_mono (λ e. Sole i e.0 e.1) (λ e. Sole (suc i) e.0 e.1) leaders
          (λ e. Sole-below i (suc i) e.0 e.1 (omega arith)) h.sole;
    each = λ k l. elim (Leads-split i k l) [
      | inl same ↦ absurd (idle (subst (Leads (suc i)) same l))
      | inr before ↦ h.each k before
    ];
  }

  add-Found :
      (n i : ℕ) (leaders : List (ℤ × List ℕ))
      → OnePerTerm n
      → suc i ≤ n
      → Leads (suc i) i
      → Found i leaders
      → Found (suc i) (insert (pos (rafts i).current_term) (i ∷ []) leaders)
  add-Found n i leaders one le l h = record {
    sole =
        insert-All (Sole (suc i)) (pos (rafts i).current_term) (i ∷ []) leaders (i, l, refl, refl)
          (All_mono (λ e. Sole i e.0 e.1) (λ e. Sole (suc i) e.0 e.1) leaders
            (λ e. Sole-below i (suc i) e.0 e.1 (omega arith)) h.sole);
    each = λ k l'. elim (Leads-split i k l') [
      | inl same ↦ rw same (
          ground (
            arith,
            lookup-insert (pos (rafts i).current_term) (pos (rafts i).current_term) (i ∷ [])
                leaders,
          ))
      | inr before ↦ ground (
        arith,
        lookup-insert (pos (rafts i).current_term) (pos (rafts k).current_term) (i ∷ []) leaders,
        h.each k before,
        before.lt,
        one i k (Leads-below (suc i) n i le l) (Leads-below (suc i) n k le l'),
      )
    ];
  }

  leaders_by_term-Found :
      (n i : ℕ) → OnePerTerm n → i ≤ n → Found i (leaders_by_term connected rafts i)
  unfolding leaders_by_term get_state
  leaders_by_term-Found n zero one le = record {
    sole = tt;
    each = λ k l. absurd (omega (arith, l.lt));
  }
  leaders_by_term-Found n (suc i) one le =
      let leaders = leaders_by_term connected rafts i in
      let h = leaders_by_term-Found n i one (omega arith) in
      elim (Bool-cases (connected i && is_leader (rafts i).state)) [
        | inl here ↦
            let l : Leads (suc i) i = record {
              lt = omega arith;
              is_connected = ground (arith, here);
              leads = ground (arith, here);
            } in
            let fresh = absent n i leaders one le l h in
            subst (Found (suc i)) (ground (arith, here, fresh)) (add-Found n i leaders one le l h)
        | inr elsewhere ↦
            subst (Found (suc i)) (ground (arith, elsewhere))
              (skip-Found i leaders (λ l. ground (arith, elsewhere, l.is_connected, l.leads)) h)
      ]

  -- The last of the terms of a map, where no peer has a rival, and a peer that leads in it.
  last_term-Sole :
      (n : ℕ) (leaders : List (ℤ × List ℕ)) (last : ℤ)
      → All (λ e. Sole n e.0 e.1) leaders
      → (found : ℤ) × (last_term_with_leader leaders last ≡ ok found)
        × (leb_ℤ last found ≡ true)
        × All (λ e. leb_ℤ e.0 found ≡ true) leaders
        × ((found ≡ last) ⊎ ((k : ℕ) × Leads n k × (found ≡ pos (rafts k).current_term)))
  unfolding last_term_with_leader
  last_term-Sole n [] last h = (last, refl, ground arith, tt, inl refl)
  last_term-Sole n ((term, who) ∷ rest) last ((k, l, at, only), h) =
      let next = if ltb_ℤ last term then term else last in
      let (found, e, above, all, from) = last_term-Sole n rest next h in
      (
        found,
        ground (arith, e, only),
        ground (arith, above),
        (ground (arith, above), all),
        elim from [
          | inl same ↦ elim (Bool-cases (ltb_ℤ last term)) [
            | inl later ↦ inr (k, l, ground (arith, later, same, at))
            | inr earlier ↦ inl (ground (arith, earlier, same))
          ]
          | inr other ↦ inr other
        ],
      )

  -- Peer `k` leads, and in no earlier term than any other peer that leads.
  pub record LeadsLast (n k : ℕ) : Type 0 where
    pub leads : Leads n k
    pub last : (i : ℕ) → Leads n i → (rafts i).current_term ≤ (rafts k).current_term

  last_leader-lookup :
      (term found : ℤ) (who : List ℕ) (rest : List (ℤ × List ℕ)) (k : ℕ)
      → last_term_with_leader ((term, who) ∷ rest) minus_one ≡ ok found
      → lookup found ((term, who) ∷ rest) ≡ some (k ∷ [])
      → last_leader ((term, who) ∷ rest) ≡ ok (some k)
  unfolding last_leader
  last_leader-lookup term found who rest k e at = ground (arith, e, at)

  last_leader-Found :
      (n : ℕ) (leaders : List (ℤ × List ℕ))
      → Found n leaders
      → ((last_leader leaders ≡ ok none) × ((k : ℕ) → ¬ Leads n k))
        ⊎ ((k : ℕ) × (last_leader leaders ≡ ok (some k)) × LeadsLast n k)
  unfolding last_leader last_term_with_leader lookup
  last_leader-Found n [] h = inl (refl, λ k l. ground (arith, h.each k l))
  last_leader-Found n ((term, who) ∷ rest) h =
      let leaders = (term, who) ∷ rest in
      let (found, e, _, all, from) = last_term-Sole n leaders minus_one h.sole in
      elim from [
        | inl none' ↦ let (k, _, at, _) = h.sole.0 in absurd (ground (arith, none', at, all.0))
        | inr (k, l, at) ↦ inr (
          k,
          last_leader-lookup term found who rest k e
              (subst (λ t. lookup t leaders ≡ some (k ∷ [])) (sym at) (h.each k l)),
          record {
            leads = l;
            last = λ i l'. ground (
              arith,
              at,
              lookup-All (λ t _. leb_ℤ t found ≡ true) (pos (rafts i).current_term) leaders all
                  (h.each i l'),
            );
          },
        )
      ]

  -- Where no two peers lead in one term, one try finds a leader of the last term, or none if there
  -- is none, and does not fail.
  pub find_leader_lem :
      (n : ℕ)
      → OnePerTerm n
      → ((find_leader connected n rafts ≡ ok none) × ((k : ℕ) → ¬ Leads n k))
        ⊎ ((k : ℕ) × (find_leader connected n rafts ≡ ok (some k)) × LeadsLast n k)
  find_leader_lem n one =
      last_leader-Found n (leaders_by_term connected rafts n)
        (leaders_by_term-Found n n one (omega arith))
