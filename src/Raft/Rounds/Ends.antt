-- ===== src/Raft/Rounds/Ends.antt =====
-- The rounds of `startAppend` of src/raft/raft.go come to an end.
use cosi300a.Prelude.{
  ℕ, zero, suc, ◌+◌, ◌-◌, ◌≤◌, ◌<◌, ◌≡◌, ◌∙◌, inl, inr, ap, true, some, arith, ok, get_elem?, drop,
  subst,
}
use cosi300a.Raft.Types.{Raft, Labgob, IsCodec, LogItem}
use cosi300a.Raft.Contiguous.{first, final}
use cosi300a.Raft.Rounds.Exchange.{exchanges, IsPair}
use cosi300a.Raft.Rounds.Round.{IsCaughtUp, IsCloser, exchange_lem}

module _ {C D B : Type 0} (g : Labgob C D B) (c : IsCodec g) (now j : ℕ) (x y : LogItem C) where
  -- What enough rounds come to.
  pub record IsReached (n next : ℕ) (l f l' f' : Raft C D B) : Type 0 where
    pub ran : exchanges g n now j l f ≡ ok (true, l', f')
    pub log : l'.log ≡ l.log
    pub match_at : get_elem? l'.match_index j ≡ some (final l.log)
    pub ends : final f'.log ≡ final l.log
    pub start : ℕ
    pub lo : first l.log < start
    pub hi : start ≤ next
    pub same : drop (start - first l.log) f'.log ≡ drop (start - first l.log) l.log

  last_round :
      (n next : ℕ) (l f l' f' : Raft C D B) (h : IsPair j next l f x y)
      → IsCaughtUp g c now j next l f x y h l' f'
      → IsReached (suc n) next l f l' f'
  unfolding exchanges
  last_round n next l f l' f' h k = record {
    ran = ground (arith, k.ran);
    log = k.log;
    match_at = k.match_at;
    ends = k.ends;
    start = next;
    lo = h.lo;
    hi = omega arith;
    same = k.same;
  }

  one_more_round :
      (n next : ℕ) (l f l' f' l'' f'' : Raft C D B) (h : IsPair j next l f x y)
      (k : IsCloser g c now j next l f x y h l' f')
      → IsReached n k.nearer l' f' l'' f''
      → IsReached (suc n) next l f l'' f''
  unfolding exchanges
  one_more_round n next l f l' f' l'' f'' h k r = record {
    ran = ground (arith, k.ran, r.ran);
    log = r.log ∙ k.log;
    match_at = r.match_at ∙ ap (λ log. some (final log)) k.log;
    ends = r.ends ∙ ap final k.log;
    start = r.start;
    lo = omega (arith, r.lo, ap first k.log);
    hi = omega (arith, r.hi, k.lower);
    same =
        subst (λ log. drop (r.start - first log) f''.log ≡ drop (r.start - first log) log) k.log
          r.same;
  }

  -- A leader, and a follower in no later term whose log starts at the same index and term as the
  -- leader's: as many rounds of a call, its answer and the reply as the peer's next index lies
  -- above the leader's first index are enough for the follower to take the entries, without a
  -- panic. Its log then ends where the leader's does, and is the leader's from some index on, no
  -- higher than the next index was; and the leader has the end of its log as the peer's match. The
  -- leader's matches and commit position lie within its log; labgob is one that decodes what it
  -- encodes.
  pub exchanges_end :
      (n next : ℕ) (l f : Raft C D B)
      → IsPair j next l f x y
      → next ≤ first l.log + n
      → (l' f' : Raft C D B) × IsReached n next l f l' f'
  exchanges_end zero next l f h enough = absurd (omega (arith, enough, h.lo))
  exchanges_end (suc n) next l f h enough =
      let (l', f', o) = exchange_lem g c now j next l f x y h in
      elim o [
        | inl k ↦ (l', f', last_round n next l f l' f' h k)
        | inr k ↦
            let (l'', f'', r) =
              exchanges_end n k.nearer l' f' k.pair
                (omega (arith, enough, k.lower, ap first k.log)) in
            (l'', f'', one_more_round n next l f l' f' l'' f'' h k r)
      ]
