-- ===== src/Raft/Tester/Applied.antt =====
-- src/raft/config.go: the goroutine of `start1` that reads a server's apply channel, and
-- `nCommitted`. `log.Fatalf` and `t.Fatalf` end the test, so both are panics; since the reader ends
-- it, `applyErr` stays empty. Commands are compared by Go's `==`.
use cosi300a.Prelude.{
  ℕ, ◌+◌, ◌-◌, ◌≡◌, ◌↔◌, Bool, true, false, ◌&&◌, ◌||◌, not, List, [], ◌∷◌, Option, none, some,
  Result, ok, panic, if◌then◌else◌, ltb, get_elem?, set, replicate, lookup, insert, nat_key, Key,
  ◌==◌, arith,
}
use cosi300a.Raft.Types.{ApplyMsg, entry, snapshot, Interface, command, dummy_node}

module _ {C : Type 0} ⦃e : Key C⦄ where
  abbrev pub same_command : Interface C → Interface C → Bool
  same_command (command a) (command b) = a == b
  same_command dummy_node dummy_node = true
  same_command _ _ = false

  pub same_command_iff : (a b : Interface C) → (same_command a b ≡ true) ↔ (a ≡ b)
  same_command_iff (command a) (command b) = ground (arith, e.same_iff a b)
  same_command_iff (command a) dummy_node = ground arith
  same_command_iff dummy_node (command b) = ground arith
  same_command_iff dummy_node dummy_node = ground arith

  instance abbrev pub interface_key : Key (Interface C)
  interface_key = record { same = same_command; same_iff = same_command_iff }

-- What the tester keeps of what the servers have applied: `logs` has a map for each server.
pub record Applied (C : Type 0) : Type 0 where
  pub logs : List (List (ℕ × Interface C))
  pub max_index : ℕ

abbrev pub is_some {ℓ} : {A : Type ℓ} → Option A → Bool
is_some none = false
is_some (some a) = true

module _ {C : Type 0} ⦃e : Key C⦄ where
  -- The loop over the servers: whether one of them has applied another command at the index.
  unfoldable pub has_other : ℕ → Interface C → List (List (ℕ × Interface C)) → Bool
  has_other index v [] = false
  has_other index v (log ∷ logs) =
      let rest = has_other index v logs in
      elim (lookup index log) [ none ↦ rest | some old ↦ not (old == v) || rest ]

  -- The reader of server `i` takes a message.
  unfoldable pub read_apply_ch : {D : Type 0} → ℕ → ApplyMsg C D → Applied C → Result (Applied C)
  read_apply_ch i (snapshot _ _ _) cfg = ok cfg
  read_apply_ch i (entry v index _) cfg = elim (get_elem? cfg.logs i) [
    | none ↦ panic
    | some log ↦
        if has_other index v cfg.logs
        then panic
        else if ltb 1 index && not (is_some (lookup (index - 1) log))
        then panic
        else ok (record {
          logs = set cfg.logs i (insert index v log);
          max_index = if ltb cfg.max_index index then index else cfg.max_index;
        })
  ]

  -- The readers take messages, each with its server, in the order of the tester's lock.
  unfoldable pub read_all : {D : Type 0} → List (ℕ × ApplyMsg C D) → Applied C → Result (Applied C)
  read_all [] cfg = ok cfg
  read_all ((i, msg) ∷ msgs) cfg = elim (read_apply_ch i msg cfg) [
    | panic ↦ panic
    | ok next ↦ read_all msgs next
  ]

  abbrev pub differs : Option (Interface C) → Interface C → Bool
  differs none cmd1 = true
  differs (some cmd) cmd1 = not (cmd == cmd1)

  -- `count` and `cmd` after the servers before `logs`.
  unfoldable pub count_committed :
      ℕ
      → List (List (ℕ × Interface C))
      → ℕ
      → Option (Interface C)
      → Result (ℕ × Option (Interface C))
  count_committed index [] count cmd = ok (count, cmd)
  count_committed index (log ∷ logs) count cmd = elim (lookup index log) [
    | none ↦ count_committed index logs count cmd
    | some cmd1 ↦
        let counted = count_committed index logs (count + 1) (some cmd1) in
        if ltb 0 count && differs cmd cmd1 then panic else counted
  ]

  abbrev pub n_committed : ℕ → Applied C → Result (ℕ × Option (Interface C))
  n_committed index cfg = count_committed index cfg.logs 0 none

-- The maps that `make_config` makes.
abbrev pub make_applied : {C : Type 0} → ℕ → Applied C
make_applied n = record { logs = replicate n []; max_index = 0 }
