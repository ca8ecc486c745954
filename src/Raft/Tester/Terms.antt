-- ===== src/Raft/Tester/Terms.antt =====
-- `checkTerms` and `checkNoLeader` of src/raft/config.go.
use cosi300a.Prelude.{
  ℕ, zero, suc, ◌≡◌, ◌≢◌, ◌<◌, ◌⊎◌, inl, inr, Bool, true, ℤ, pos, minus_one, ok, panic, arith,
  Bool-cases, Result-cases, eq_ℤ_iff, nat_eq, subst, sym,
}
use cosi300a.Raft.Types.{Raft, leader}
use cosi300a.Raft.Node.{get_state}
use cosi300a.Raft.Tester.{check_terms, check_no_leader}

module _ {C D B : Type 0} (connected : ℕ → Bool) (rafts : ℕ → Raft C D B) where
  -- What `checkTerms` returns is the term of every connected peer.
  pub check_terms-all :
      (n i : ℕ) (term : ℤ)
      → check_terms connected rafts n ≡ ok term
      → i < n
      → connected i ≡ true
      → pos (rafts i).current_term ≡ term
  unfolding check_terms get_state
  check_terms-all zero i term e lt c = absurd (omega (arith, lt))
  check_terms-all (suc n) i term e lt c =
      Result-cases (check_terms connected rafts n)
        (λ before f. elim (Bool-cases (nat_eq i n)) [
          | inl last ↦
              let same : i ≡ n = ground (arith, last) in
              let c' : connected n ≡ true = subst (λ k. connected k ≡ true) same c in
              subst (λ k. pos (rafts k).current_term ≡ term) (sym same)
                (ground (arith, e, f, c', eq_ℤ_iff before (pos (rafts n).current_term)))
          | inr earlier ↦
              let same = check_terms-all n i before f (ground (arith, earlier, lt)) c in
              ground (arith, e, f, same)
        ])
        (λ f. ground (arith, e, f))

  check_terms-from :
      (n : ℕ) (term : ℤ)
      → check_terms connected rafts n ≡ ok term
      → (term ≡ minus_one)
        ⊎ ((k : ℕ) × (k < n) × (connected k ≡ true) × (pos (rafts k).current_term ≡ term))
  unfolding check_terms get_state
  check_terms-from zero term e = inl (ground (arith, e))
  check_terms-from (suc n) term e =
      Result-cases (check_terms connected rafts n)
        (λ before f. elim (Bool-cases (connected n)) [
          | inr cut ↦ elim (check_terms-from n before f) [
            | inl none' ↦ inl (ground (arith, e, f, cut, none'))
            | inr (k, lt, c, at) ↦ inr (k, omega (arith, lt), c, ground (arith, e, f, cut, at))
          ]
          | inl c ↦ inr (
            n,
            omega arith,
            c,
            ground (arith, e, f, c, eq_ℤ_iff before (pos (rafts n).current_term)),
          )
        ])
        (λ f. ground (arith, e, f))

  -- It fails only where two connected peers have different terms.
  pub check_terms-panic :
      (n : ℕ)
      → check_terms connected rafts n ≡ panic
      → (i k : ℕ) × (i < n)
        × (k < n)
        × (connected i ≡ true)
        × (connected k ≡ true)
        × ((rafts i).current_term ≢ (rafts k).current_term)
  unfolding check_terms get_state
  check_terms-panic zero e = ground (arith, e)
  check_terms-panic (suc n) e =
      Result-cases (check_terms connected rafts n)
        (λ before f. elim (check_terms-from n before f) [
          | inl none' ↦ ground (arith, e, f, none')
          | inr (k, lt, c, at) ↦ (
            k,
            n,
            omega (arith, lt),
            omega arith,
            c,
            ground (arith, e, f),
            λ same. ground (arith, e, f, at, same, eq_ℤ_iff before (pos (rafts n).current_term)),
          )
        ])
        (λ f.
          let (i, k, hi, hk, ci, ck, differ) = check_terms-panic n f in
          (i, k, omega (arith, hi), omega (arith, hk), ci, ck, differ))

  -- `checkNoLeader` passes only where no connected peer leads.
  pub check_no_leader-all :
      (n i : ℕ)
      → check_no_leader connected rafts n ≡ ok tt
      → i < n
      → connected i ≡ true
      → (rafts i).state ≢ leader
  unfolding check_no_leader get_state
  check_no_leader-all zero i e lt c = absurd (omega (arith, lt))
  check_no_leader-all (suc n) i e lt c =
      Result-cases (check_no_leader connected rafts n)
        (λ done f. elim (Bool-cases (nat_eq i n)) [
          | inl last ↦
              let same : i ≡ n = ground (arith, last) in
              let c' : connected n ≡ true = subst (λ k. connected k ≡ true) same c in
              subst (λ k. (rafts k).state ≢ leader) (sym same) (λ l. ground (arith, e, f, l, c'))
          | inr earlier ↦
              check_no_leader-all n i (ground (arith, f)) (ground (arith, earlier, lt)) c
        ])
        (λ f. ground (arith, e, f))
