-- ===== src/Shardmaster/Order.antt =====
-- src/shardmaster/server.go: Go iterates over a map in any order; the shards are dealt out from the
-- sorted keys, so that all the servers deal them alike.
use cosi300a.Prelude.{ℕ, ◌≡◌, refl, ap, ◌∙◌, List, length, suc, sort_ints, sort_ints-Perm}
use mathlib.Core.List.{Perm, Permᴰ}
use mathlib.Core.Logic.{∥∥₁_elim}
use cosi300a.Shardmaster.Types.{Groups}
use cosi300a.Shardmaster.Shards.{redistribute_shard, gids_of}

gids_of-Perm : {groups other : Groups} → Permᴰ groups other → Permᴰ (gids_of groups) (gids_of other)
gids_of-Perm Permᴰ.nil = Permᴰ.nil
gids_of-Perm (Permᴰ.cons e d) = Permᴰ.cons (ap (λ x. x.0) e) (gids_of-Perm d)
gids_of-Perm (Permᴰ.swap e f) = Permᴰ.swap (ap (λ x. x.0) e) (ap (λ x. x.0) f)
gids_of-Perm (Permᴰ.trans d d') = Permᴰ.trans (gids_of-Perm d) (gids_of-Perm d')

length-Perm : {groups other : Groups} → Permᴰ groups other → length groups ≡ length other
length-Perm Permᴰ.nil = refl
length-Perm (Permᴰ.cons e d) = ap suc (length-Perm d)
length-Perm (Permᴰ.swap e f) = refl
length-Perm (Permᴰ.trans d d') = length-Perm d ∙ length-Perm d'

-- The shards are dealt out alike in whatever order the map of the groups is gone through.
pub redistribute_shard-Perm :
    (groups other : Groups) (shards : List ℕ)
    → Perm groups other
    → redistribute_shard groups shards ≡ redistribute_shard other shards
unfolding redistribute_shard
redistribute_shard-Perm groups other shards p =
    let keys : sort_ints (gids_of groups) ≡ sort_ints (gids_of other) =
      ∥∥₁_elim p (hlevel) (λ d. sort_ints-Perm (gids_of-Perm d)) in
    let size : length groups ≡ length other = ∥∥₁_elim p (hlevel) length-Perm in
    rw (keys, size) refl
