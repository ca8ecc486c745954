-- ===== src/Kvraft/Refine.antt =====
-- The server of src/kvraft/server.go against the sequential model of src/models/kv.go: for each key, the
-- log's commands, each taken once, are steps of the model.
use cosi300a.Prelude.{
  ℕ, ◌≡◌, ap, ◌∙◌, Bool, true, false, Option, none, some, List, [], ◌∷◌, map, arith, ok, String,
  fun_ext, if◌then◌else◌, leb, ◌==◌, string_key, lookup, insert, lookup-insert, Result-cases,
  Bool-cases, inl, inr,
}
use text.Mathlib.TextEquality.{eq_iff}
use text.Mathlib.TextLemmas.{nil-append}
use cosi300a.Raft.Types.{ApplyMsg, Interface, Labgob}
use cosi300a.Kvraft.Types.{
  Command, CommandType, get_command, put_command, CommandId, KvServer, SnapshotGob,
}
use cosi300a.Kvraft.Server.{check_apply_command, apply_all, committed, run_command, appended}
use cosi300a.Kvraft.Model
use cosi300a.Kvraft.Model.{KvInput, KvOutput, step}
use cosi300a.Kvraft.Once.{apply-skip}

-- The value of a key; a missing key has the model's initial value.
abbrev pub value_or_init : Option String → String
value_or_init none = Model.init
value_or_init (some v) = v

abbrev pub value_at : List (String × String) → String → String
value_at m key = value_or_init (lookup key m)

abbrev pub op_of : CommandType → ℕ
op_of get_command = 0
op_of put_command = 1
op_of _ = 2

abbrev pub input_of : Command → KvInput
input_of c = record { op = op_of c.type; key = c.key; value = c.value }

-- The model's step for a command, answered with the value that the key has.
abbrev pub model_step : Command → String → Bool × String
model_step c state = step state (input_of c) (record { value = state })

-- The last command number of each clerk.
abbrev pub Seen : Type 0
Seen = String → Option ℕ

abbrev pub seen_before : Seen → CommandId → Bool
seen_before seen id = elim (seen id.clerk_id) [ none ↦ false | some last ↦ leb id.command last ]

abbrev pub see : Seen → CommandId → Seen
see seen id clerk = if id.clerk_id == clerk then some id.command else seen clerk

-- The commands of a log without those that their clerk has passed.
unfoldable pub fresh : Seen → List Command → List Command
fresh seen [] = []
fresh seen (c ∷ cs) =
    let new = c ∷ fresh (see seen c.id) cs in
    let old = fresh seen cs in if seen_before seen c.id then old else new

-- The model's run on one key.
unfoldable pub model_run : String → List Command → String → String
model_run key [] state = state
model_run key (c ∷ cs) state =
    model_run key cs (if c.key == key then (model_step c state).1 else state)

-- A command that does not panic acts on its own key as the model's step, which the model accepts,
-- and on no other key.
pub run_command_step :
    (c : Command) (m m' : List (String × String)) (key : String)
    → run_command c.type c m ≡ ok m'
    → (value_at m' key
        ≡ (if c.key == key then (model_step c (value_at m c.key)).1 else value_at m key))
      × ((model_step c (value_at m c.key)).0 ≡ true)
unfolding run_command step
run_command_step c m m' key e = ground (
  arith,
  eq_iff c.key key,
  eq_iff (value_at m c.key) (value_at m c.key),
  nil-append c.value,
  lookup-insert c.key key c.value m,
  lookup-insert c.key key (appended (lookup c.key m) c.value) m,
)

-- A command of the log, with the index and the term of its entry.
abbrev pub Entry : Type 0
Entry = Command × ℕ × ℕ

abbrev pub to_message : {D : Type 0} → Entry → ApplyMsg Command D
to_message (c, index, term) = ApplyMsg.entry (Interface.command c) index term

module _ {D B : Type 0} where
  abbrev pub seen_by : KvServer D B → Seen
  seen_by kv clerk = lookup clerk kv.last_committed_command_count

  seen_by-insert :
      (kv mid : KvServer D B) (id : CommandId)
      → mid.last_committed_command_count
        ≡ insert id.clerk_id id.command kv.last_committed_command_count
      → seen_by mid ≡ see (seen_by kv) id
  seen_by-insert kv mid id e = fun_ext λ clerk.
      ap (lookup clerk) e
      ∙ lookup-insert id.clerk_id clerk id.command kv.last_committed_command_count

  -- The server's test for a duplicate.
  committed-eq-seen_before :
      (kv : KvServer D B) (id : CommandId) → committed kv id ≡ seen_before (seen_by kv) id
  unfolding committed
  committed-eq-seen_before kv id = ground arith

module _ {D B : Type 0} (g : Labgob Command D B) (h : SnapshotGob D) where
  -- What a new command does to the two maps.
  pub apply-new :
      (c : Command) (index term : ℕ) (kv kv' : KvServer D B) (saving : Option (ℕ × ℕ × D))
      → check_apply_command g h (ApplyMsg.entry (Interface.command c) index term) kv
        ≡ ok (saving, kv')
      → committed kv c.id ≡ false
      → (run_command c.type c kv.kv_map ≡ ok kv'.kv_map)
        × (kv'.last_committed_command_count
            ≡ insert c.id.clerk_id c.id.command kv.last_committed_command_count)
  unfolding check_apply_command
  apply-new c index term kv kv' saving e n = ground arith

  -- Where a server takes a log of commands without a panic, the value of each key is the one that
  -- the sequential model of the key computes from the log's commands, each clerk's command taken
  -- once: those that the clerk has passed already are left out.
  pub refines_model :
      (key : String) (entries : List Entry) (kv kv' : KvServer D B)
      → apply_all g h (map to_message entries) kv ≡ ok kv'
      → value_at kv'.kv_map key
        ≡ model_run key (fresh (seen_by kv) (map (λ e. e.0) entries)) (value_at kv.kv_map key)
  unfolding apply_all fresh model_run
  refines_model key [] kv kv' e = ground arith
  refines_model key ((c, index, term) ∷ entries) kv kv' e =
      Result-cases (check_apply_command g h (to_message (c, index, term)) kv)
        (λ (saving, mid) first.
          let rest : apply_all g h (map to_message entries) mid ≡ ok kv' =
            ground (arith, e, first) in
          let ih = refines_model key entries mid kv' rest in
          elim (Bool-cases (committed kv c.id)) [
            | inl old ↦
                let same : mid ≡ kv = ground (arith, first, apply-skip g h c index term kv old) in
                ground (arith, ih, same, ap seen_by same, old, committed-eq-seen_before kv c.id)
            | inr new ↦
                let (run, counts) = apply-new c index term kv mid saving first new in
                ground (
                  arith,
                  ih,
                  new,
                  committed-eq-seen_before kv c.id,
                  seen_by-insert kv mid c.id counts,
                  run_command_step c kv.kv_map mid.kv_map key run,
                  eq_iff c.key key,
                )
          ])
        (λ p. ground (arith, e, p))
