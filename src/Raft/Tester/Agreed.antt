-- ===== src/Raft/Tester/Agreed.antt =====
-- What the readers of src/raft/config.go let pass: logs that agree and have no gap, on which
-- `nCommitted` does not fail.
use cosi300a.Prelude.{
  ℕ, suc, ◌+◌, ◌-◌, ◌≡◌, ◌<◌, ◌≤◌, subst, ap, sym, ◌⊎◌, some-injective, ltb, zero, inl, inr, true,
  false, List, [], ◌∷◌, Option, none, some, ok, if◌then◌else◌, nat_eq, set, get_elem?, count, All,
  lookup, insert, lookup-insert, nat_key, Key, arith, Bool-cases, Option-cases, Result-cases,
  All-get_elem?,
}
use cosi300a.Raft.Types.{ApplyMsg, entry, snapshot, Interface, dummy_node}
use cosi300a.Raft.Tester.Applied.{
  Applied, interface_key, same_command_iff, is_some, has_other, read_apply_ch, read_all,
  count_committed, n_committed, make_applied,
}

module _ {C : Type 0} where
  -- The log has the command that is chosen for the index, if it has one.
  abbrev Follows : (ℕ → Interface C) → List (ℕ × Interface C) → Type 0
  Follows chosen log = (index : ℕ) (v : Interface C) → lookup index log ≡ some v → v ≡ chosen index

  -- The log has every index from 1 up to any that it has.
  abbrev Gapless : List (ℕ × Interface C) → Type 0
  Gapless log =
      (index : ℕ)
      → 1 < index
      → is_some (lookup index log) ≡ true
      → is_some (lookup (index - 1) log) ≡ true

  pub record IsAgreed (logs : List (List (ℕ × Interface C))) : Type 0 where
    pub chosen : ℕ → Interface C
    pub follows : All (Follows chosen) logs
    pub gapless : All Gapless logs

  abbrev choose : ℕ → Interface C → (ℕ → Interface C) → ℕ → Interface C
  choose index v chosen i = if nat_eq index i then v else chosen i

  abbrev pub held : ℕ → List (List (ℕ × Interface C)) → ℕ
  held index logs = count (λ log. if is_some (lookup index log) then 1 else 0) logs

module _ {C : Type 0} ⦃e : Key C⦄ where
  has_other-Follows :
      (index : ℕ) (v : Interface C) (chosen : ℕ → Interface C)
      (logs : List (List (ℕ × Interface C)))
      → has_other index v logs ≡ false
      → All (Follows chosen) logs
      → All (Follows (choose index v chosen)) logs
  unfolding has_other
  has_other-Follows index v chosen [] h f = tt
  has_other-Follows index v chosen (log ∷ logs) h f = (
    λ i w at. ground (arith, h, at, f.0 i w, same_command_iff w v),
    has_other-Follows index v chosen logs (ground (arith, h)) f.1,
  )

  insert-Follows :
      (index : ℕ) (v : Interface C) (chosen : ℕ → Interface C) (log : List (ℕ × Interface C))
      → Follows (choose index v chosen) log
      → Follows (choose index v chosen) (insert index v log)
  insert-Follows index v chosen log f i w at =
      ground (arith, lookup-insert index i v log, f i w, at)

  insert-Gapless :
      (index : ℕ) (v : Interface C) (log : List (ℕ × Interface C))
      → (1 < index → is_some (lookup (index - 1) log) ≡ true)
      → Gapless log
      → Gapless (insert index v log)
  insert-Gapless index v log before h i lt at =
      ground (arith, lookup-insert index i v log, lookup-insert index (i - 1) v log, h i lt, before)

  set-All :
      (P : List (ℕ × Interface C) → Type 0) (logs : List (List (ℕ × Interface C))) (i : ℕ)
      {log : List (ℕ × Interface C)}
      → P log
      → All P logs
      → All P (set logs i log)
  set-All P [] i p h = tt
  set-All P (first ∷ rest) zero p h = (p, h.1)
  set-All P (first ∷ rest) (suc i) p h = (h.0, set-All P rest i p h.1)

  read_apply_ch-IsAgreed :
      {D : Type 0} (i : ℕ) (msg : ApplyMsg C D) (cfg next : Applied C)
      → read_apply_ch i msg cfg ≡ ok next
      → IsAgreed cfg.logs
      → IsAgreed next.logs
  unfolding read_apply_ch
  read_apply_ch-IsAgreed i (snapshot _ _ _) cfg next r h = subst IsAgreed (ground (arith, r)) h
  read_apply_ch-IsAgreed i (entry v index term) cfg next r h =
      elim (Option-cases (get_elem? cfg.logs i)) [
        | inl none' ↦ absurd (ground (arith, r, none'))
        | inr (log, at) ↦
            let follows =
              has_other-Follows index v h.chosen cfg.logs (ground (arith, r, at)) h.follows in
            let own = All-get_elem? (Follows (choose index v h.chosen)) cfg.logs i follows at in
            subst IsAgreed (ground (arith, r, at)) (record {
              chosen = choose index v h.chosen;
              follows =
                  set-All (Follows (choose index v h.chosen)) cfg.logs i
                    (insert-Follows index v h.chosen log own) follows;
              gapless =
                  set-All Gapless cfg.logs i
                    (insert-Gapless index v log (λ lt. ground (arith, r, at, lt))
                      (All-get_elem? Gapless cfg.logs i h.gapless at))
                    h.gapless;
            })
      ]

  read_all-IsAgreed :
      {D : Type 0} (msgs : List (ℕ × ApplyMsg C D)) (cfg last : Applied C)
      → read_all msgs cfg ≡ ok last
      → IsAgreed cfg.logs
      → IsAgreed last.logs
  unfolding read_all
  read_all-IsAgreed [] cfg last r h = subst IsAgreed (ground (arith, r)) h
  read_all-IsAgreed ((i, msg) ∷ msgs) cfg last r h =
      Result-cases (read_apply_ch i msg cfg)
        (λ next e'.
          read_all-IsAgreed msgs next last (ground (arith, r, e'))
            (read_apply_ch-IsAgreed i msg cfg next e' h))
        (λ e'. absurd (ground (arith, r, e')))

  make_applied-IsAgreed : (n : ℕ) → IsAgreed {C = C} (make_applied n).logs
  unfolding lookup
  make_applied-IsAgreed zero = record { chosen = λ i. dummy_node; follows = tt; gapless = tt }
  make_applied-IsAgreed (suc n) =
      let h = make_applied-IsAgreed n in
      record {
        chosen = h.chosen;
        follows = (λ i v at. ground (arith, at), h.follows);
        gapless = (λ i lt at. ground (arith, at), h.gapless);
      }

  count_committed-Follows :
      (index : ℕ) (chosen : ℕ → Interface C) (logs : List (List (ℕ × Interface C))) (count : ℕ)
      (cmd : Option (Interface C))
      → All (Follows chosen) logs
      → (0 < count → cmd ≡ some (chosen index))
      → (final : Option (Interface C)) × (count_committed index logs count cmd
          ≡ ok (count + held index logs, final))
        × (0 < count + held index logs → final ≡ some (chosen index))
  unfolding count_committed
  count_committed-Follows index chosen [] count cmd f h =
      (cmd, ground arith, λ lt. h (omega (arith, lt)))
  count_committed-Follows index chosen (log ∷ logs) count cmd f h =
      elim (Option-cases (lookup index log)) [
        | inl none' ↦
            let (final, e, last) = count_committed-Follows index chosen logs count cmd f.1 h in
            (final, ground (arith, none', e), λ lt. last (ground (arith, none', lt)))
        | inr (v, at) ↦
            let same = f.0 index v at in
            let (final, e, last) =
              count_committed-Follows index chosen logs (count + 1) (some v) f.1
                (λ _. ap some same) in
            (
              final,
              ground (arith, at, e, h, same, same_command_iff v v),
              λ lt. last (ground (arith, at, lt)),
            )
      ]

  held_pos :
      (index i : ℕ) (v : Interface C) (logs : List (List (ℕ × Interface C)))
      {log : List (ℕ × Interface C)}
      → get_elem? logs i ≡ some log
      → lookup index log ≡ some v
      → 0 < held index logs
  held_pos index i v [] at has = cc
  held_pos index zero v (first ∷ rest) at has =
      let has' = subst (λ l. lookup index l ≡ some v) (sym (some-injective _ _ at)) has in
      ground (arith, has')
  held_pos index (suc i) v (first ∷ rest) at has = omega (arith, held_pos index i v rest at has)

  -- The readers of `n` servers took messages from their channels, and none of them ended the test.
  -- Where one of the servers has a command at an index, `nCommitted` does not fail: it returns the
  -- number of servers that have the index, and that command; and the server has the index before
  -- it, if the index is above 1. Commands are compared by a test that decides their equality.
  pub n_committed_lem :
      {D : Type 0} (n : ℕ) (msgs : List (ℕ × ApplyMsg C D)) (cfg : Applied C) (index i : ℕ)
      (log : List (ℕ × Interface C)) (v : Interface C)
      → read_all msgs (make_applied n) ≡ ok cfg
      → get_elem? cfg.logs i ≡ some log
      → lookup index log ≡ some v
      → (n_committed index cfg ≡ ok (held index cfg.logs, some v))
        × ((index ≤ 1) ⊎ (is_some (lookup (index - 1) log) ≡ true))
  n_committed_lem n msgs cfg index i log v r at has =
      let h = read_all-IsAgreed msgs (make_applied n) cfg r (make_applied-IsAgreed n) in
      let (final, e, last) =
        count_committed-Follows index h.chosen cfg.logs 0 none h.follows
          (λ lt. absurd (omega (arith, lt))) in
      let same = All-get_elem? (Follows h.chosen) cfg.logs i h.follows at index v has in
      let gapless = All-get_elem? Gapless cfg.logs i h.gapless at index in
      let found = last (omega (arith, held_pos index i v cfg.logs at has)) in
      (
        ground (arith, e, found, same),
        elim (Bool-cases (ltb 1 index)) [
          | inl above ↦ inr (gapless (ground (arith, above)) (ground (arith, has)))
          | inr low ↦ inl (ground (arith, low))
        ],
      )
