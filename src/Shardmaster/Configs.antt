-- ===== src/Shardmaster/Configs.antt =====
-- src/shardmaster/server.go: the history of configurations.
use cosi300a.Prelude.{
  ℕ, zero, suc, ◌+◌, ◌-◌, ◌<◌, ◌≡◌, refl, subst, none, some, Option, List, [], ◌∷◌, ◌++◌, arith, ℤ,
  pos, negsuc, ltb, ok, if◌then◌else◌, length, get_elem?, last?, lookup, insert, Distinct,
  lookup-insert, Bool-cases, inl, inr, String, nat_key,
}
use cosi300a.Shardmaster.Types.{Groups, Config, copy_group_map, copy_into}
use cosi300a.Shardmaster.Shards.{handle_query}

-- The configurations are numbered from `n` on.
abbrev pub NumberedFrom : ℕ → List Config → Type 0
NumberedFrom n [] = Unit
NumberedFrom n (c ∷ cs) = (c.num ≡ n) × NumberedFrom (suc n) cs

pub NumberedFrom-append :
    (n : ℕ) (cs : List Config) (c : Config)
    → NumberedFrom n cs
    → c.num ≡ n + length cs
    → NumberedFrom n (cs ++ c ∷ [])
NumberedFrom-append n [] c h e = (omega (arith, e), tt)
NumberedFrom-append n (d ∷ cs) c h e =
    (h.0, NumberedFrom-append (suc n) cs c h.1 (omega (arith, e)))

pub NumberedFrom-at :
    (n i : ℕ) (cs : List Config)
    → NumberedFrom n cs
    → i < length cs
    → (c : Config) × (get_elem? cs i ≡ some c) × (c.num ≡ n + i)
NumberedFrom-at n i [] h lt = absurd (omega arith)
NumberedFrom-at n zero (c ∷ cs) h lt = (c, refl, omega (arith, h.0))
NumberedFrom-at n (suc i) (c ∷ cs) h lt =
    let (l, e, k) = NumberedFrom-at (suc n) i cs h.1 (omega arith) in (l, e, omega (arith, k))

pub NumberedFrom-last :
    (n : ℕ) (cs : List Config)
    → NumberedFrom n cs
    → 0 < length cs
    → (c : Config) × (last? cs ≡ some c) × (c.num + 1 ≡ n + length cs)
NumberedFrom-last n [] h lt = absurd (omega arith)
NumberedFrom-last n (c ∷ []) h lt = (c, refl, omega (arith, h.0))
NumberedFrom-last n (c ∷ d ∷ cs) h lt =
    let (l, e, k) = NumberedFrom-last (suc n) (d ∷ cs) h.1 (omega arith) in (l, e, omega (arith, k))

-- The number of the configuration that a query for `n` is answered with: the latest one's, where
-- there is none of that number.
abbrev pub answered : ℤ → ℕ → ℕ
answered (pos n) len = if ltb n len then n else len - 1
answered (negsuc n) len = len - 1

-- On a history that is numbered from 0, a query is answered with the history's own configuration at
-- the number asked for, or with the latest one where the number is negative or too large, and that
-- configuration has that number.
pub handle_query_lem :
    (n : ℤ) (configs : List Config)
    → NumberedFrom 0 configs
    → 0 < length configs
    → (c : Config) × (handle_query n configs ≡ ok c)
      × (get_elem? configs (answered n (length configs)) ≡ some c)
      × (c.num ≡ answered n (length configs))
unfolding handle_query
handle_query_lem (pos n) configs h lt =
    let (latest, e, k) = NumberedFrom-last 0 configs h lt in
    elim (Bool-cases (ltb n (length configs))) [
      | inl known ↦
          let (c, e', k') = NumberedFrom-at 0 n configs h (ground arith) in
          (c, ground (arith, e, k, e'), ground (arith, e', known), ground (arith, k'))
      | inr unknown ↦
          let (c, e', k') = NumberedFrom-at 0 latest.num configs h (omega (arith, k)) in
          let at : latest.num ≡ answered (pos n) (length configs) = ground (arith, k, unknown) in
          (
            c,
            ground (arith, e, k, e'),
            subst (λ i. get_elem? configs i ≡ some c) at e',
            ground (arith, k', k),
          )
    ]
handle_query_lem (negsuc n) configs h lt =
    let (latest, e, k) = NumberedFrom-last 0 configs h lt in
    let (c, e', k') = NumberedFrom-at 0 latest.num configs h (omega (arith, k)) in
    let at : latest.num ≡ length configs - 1 = omega (arith, k) in
    (
      c,
      ground (arith, e, k, e'),
      subst (λ i. get_elem? configs i ≡ some c) at e',
      ground (arith, k', k),
    )

pub last?-append : (cs : List Config) (c : Config) → last? (cs ++ c ∷ []) ≡ some c
last?-append [] c = refl
last?-append (d ∷ []) c = refl
last?-append (d ∷ e ∷ cs) c = last?-append (e ∷ cs) c

-- A value of the first map, or of the second.
abbrev either : Option (List String) → Option (List String) → Option (List String)
either (some v) o = some v
either none o = o

lookup-copy_into :
    (gid : ℕ) (copied groups : Groups)
    → Distinct groups
    → lookup gid (copy_into copied groups) ≡ either (lookup gid groups) (lookup gid copied)
unfolding copy_into lookup
lookup-copy_into gid copied [] d = refl
lookup-copy_into gid copied ((k, v) ∷ rest) d =
    ground (arith, lookup-insert k gid v copied, lookup-copy_into gid (insert k v copied) rest d.1)

-- The copy of a map of groups in which no id stands twice has the same servers for each id.
pub lookup-copy_group_map :
    (gid : ℕ) (groups : Groups)
    → Distinct groups
    → lookup gid (copy_group_map groups) ≡ lookup gid groups
unfolding copy_group_map lookup
lookup-copy_group_map gid groups d = ground (arith, lookup-copy_into gid [] groups d)
