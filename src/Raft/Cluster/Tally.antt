-- ===== src/Raft/Cluster/Tally.antt =====
-- How many of the first peers pass a test.
use cosi300a.Prelude.{
  ℕ, zero, suc, ◌+◌, ◌≤◌, ◌<◌, ◌≡◌, refl, Bool, true, false, arith, if◌then◌else◌, nat_eq,
}

abbrev pub tally : (ℕ → Bool) → ℕ → ℕ
tally p zero = 0
tally p (suc n) = tally p n + (if p n then 1 else 0)

pub tally_mono :
    (p q : ℕ → Bool) (n : ℕ) → ((j : ℕ) → p j ≡ true → q j ≡ true) → tally p n ≤ tally q n
tally_mono p q zero h = omega arith
tally_mono p q (suc n) h = ground (arith, h n, tally_mono p q n h)

-- Two tests that exclude each other.
pub tally-disjoint :
    (p q : ℕ → Bool) (n : ℕ) → ((j : ℕ) → p j ≡ true → q j ≡ false) → tally p n + tally q n ≤ n
tally-disjoint p q zero h = omega arith
tally-disjoint p q (suc n) h = ground (arith, h n, tally-disjoint p q n h)

-- The test with one more peer.
abbrev pub also : (ℕ → Bool) → ℕ → ℕ → Bool
also p i j = if nat_eq i j then true else p j

tally-also_above : (p : ℕ → Bool) (i n : ℕ) → n ≤ i → tally (also p i) n ≡ tally p n
tally-also_above p i zero h = refl
tally-also_above p i (suc n) h = ground (arith, tally-also_above p i n (omega arith))

pub tally-also : (p : ℕ → Bool) (i n : ℕ) → i < n → p i ≡ false → tally (also p i) n ≡ tally p n + 1
tally-also p i zero h e = absurd (omega arith)
tally-also p i (suc n) h e = ground (arith, tally-also p i n, tally-also_above p i n)

pub tally_le : (p : ℕ → Bool) (n : ℕ) → tally p n ≤ n
tally_le p zero = omega arith
tally_le p (suc n) = ground (arith, tally_le p n)
