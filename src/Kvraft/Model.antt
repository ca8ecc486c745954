-- ===== src/Kvraft/Model.antt =====
-- src/models/kv.go: the sequential model of one key. An operation number that is neither 0 nor 1 is
-- an append.
use cosi300a.Prelude.{ℕ, Bool, true, String, concat, if◌then◌else◌, nat_eq, ◌==◌, string_key}

pub record KvInput : Type 0 where
  pub op : ℕ
  pub key : String
  pub value : String

pub record KvOutput : Type 0 where
  pub value : String

abbrev pub init : String
init = ""

unfoldable pub step : String → KvInput → KvOutput → Bool × String
step state input output =
    if nat_eq input.op 0
    then (output.value == state, state)
    else if nat_eq input.op 1
    then (true, input.value)
    else (true, concat state input.value)

abbrev quoted : String → String
quoted s = concat "'" (concat s "'")

unfoldable pub describe_operation : KvInput → KvOutput → String
describe_operation input output =
    if nat_eq input.op 0
    then concat "get(" (concat (quoted input.key) (concat ") -> " (quoted output.value)))
    else if nat_eq input.op 1
    then concat "put(" (concat (quoted input.key) (concat ", " (concat (quoted input.value) ")")))
    else if nat_eq input.op 2
    then concat "append("
        (concat (quoted input.key) (concat ", " (concat (quoted input.value) ")")))
    else "<invalid>"
