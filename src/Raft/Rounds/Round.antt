-- ===== src/Raft/Rounds/Round.antt =====
-- What one round of `startAppend` of src/raft/raft.go does to the leader and to the peer.
use cosi300a.Prelude.{
  ℕ, ◌+◌, ◌-◌, ◌≤◌, ◌<◌, ◌≡◌, ◌≢◌, ◌⊎◌, ap, subst, sym, ◌∙◌, refl, true, false, some, arith, ok,
  length, set, get_elem?, drop, After, Bool-cases, inl, inr, get_elem?-set_self, some-injective,
  length-set,
}
use cosi300a.Raft.Types.{Raft, Labgob, IsCodec, LogItem, AppendEntriesArgs, AppendEntriesReply}
use cosi300a.Raft.Log.{max_int, get_log_item_at_index}
use cosi300a.Raft.Node.{refresh_timestamp}
use cosi300a.Raft.Append.{append_args, append_entries, handle_append_reply}
use cosi300a.Raft.Contiguous.{IsLog, first, final, Contiguous, Contiguous-subst, IsLog-drop}
use cosi300a.Raft.Accessors.{
  get_log_item_at_index-ok, get_last_log_term-IsLog, get_dummy_log_index-IsLog,
}
use cosi300a.Raft.Replicate.{replicated}
use cosi300a.Raft.Follow.{append_entries_lem, append_args_lem, replicated-IsLog}
use cosi300a.Raft.Commit.{new_match, accept_reply_lem, advanced_at, handled}
use cosi300a.Raft.Agree.{replicates, final-drop}
use cosi300a.Raft.Majority.{find_match-total}
use cosi300a.Raft.Rounds.Exchange.{
  exchange, IsPair, find_match-bound, All-set, exchange_ran, backs_off, advanced_next,
  advanced_match, take-head, first-head, first-final, answered_term,
}

module _ {C D B : Type 0} (g : Labgob C D B) (c : IsCodec g) (now j next : ℕ) (l f : Raft C D B)
    (x y : LogItem C) (h : IsPair j next l f x y) where
  -- What a round leaves where the peer takes the entries.
  pub record IsCaughtUp (l' f' : Raft C D B) : Type 0 where
    pub ran : exchange g now j l f ≡ ok (true, l', f')
    pub log : l'.log ≡ l.log
    pub next_at : get_elem? l'.next_index j ≡ some (final l.log + 1)
    pub match_at : get_elem? l'.match_index j ≡ some (final l.log)
    pub ends : final f'.log ≡ final l.log
    pub same : drop (next - first l.log) f'.log ≡ drop (next - first l.log) l.log

  -- And where it does not.
  pub record IsCloser (l' f' : Raft C D B) : Type 0 where
    pub ran : exchange g now j l f ≡ ok (false, l', f')
    pub log : l'.log ≡ l.log
    pub nearer : ℕ
    pub lower : nearer < next
    pub pair : IsPair j nearer l' f' x y

  same_first : first l.log ≡ first f.log
  same_first = omega (arith, first-head l.log h.head, first-head f.log h.head', h.head_index)

  module _ (item : LogItem C) (found : get_log_item_at_index l.log (next - 1) ≡ ok item) where
    abbrev args : AppendEntriesArgs C
    args = record {
      term = l.current_term;
      leader_id = l.me;
      prev_log_index = next - 1;
      prev_log_term = item.term;
      entries = drop (next - first l.log) l.log;
      leader_commit = l.commit_index;
    }

    shape : Contiguous (next - 1 + 1) args.entries
    shape =
        Contiguous-subst args.entries (omega (arith, h.lo))
          (IsLog-drop l.log next h.leads (omega (arith, h.lo)))

    size : next - 1 + length args.entries ≡ final l.log
    size = omega (arith, h.lo, final-drop l.log next h.leads h.lo h.hi)

    -- The next index, and the leader, where the peer has refused the entries.
    abbrev nearer : ℕ
    nearer = max_int (next - 1 - length args.entries) (first l.log + 1)

    abbrev backed : Raft C D B
    backed = record (refresh_timestamp now l) { next_index = set l.next_index j nearer }

    -- The first entry is no conflict.
    agrees : args.prev_log_index ≡ first f.log → (replicated args f.log).1 ≡ true
    agrees e =
        let elem = (get_log_item_at_index-ok l.log (next - 1) item h.leads found).elem in
        let zero_at : next - 1 - first l.log ≡ 0 = omega (arith, e, same_first) in
        let zero_at' : next - 1 - first f.log ≡ 0 = omega (arith, e) in
        let at_head : get_elem? l.log 0 ≡ some item =
          ap (λ k. get_elem? l.log k) (sym zero_at) ∙ elem in
        let same : x ≡ item = some-injective x item (sym h.head ∙ at_head) in
        let reach : first f.log ≤ final f.log = first-final f.log h.follows in
        ground (arith, e, zero_at', h.head', same, h.head_term, reach)

    module _ (call : append_args l j ≡ ok (some args)) (f' : Raft C D B)
        (reply : AppendEntriesReply) (answer : append_entries g now args f ≡ ok (reply, f'))
        (term : reply.term ≡ l.current_term) where
      success : reply.success ≡ true → (l' : Raft C D B) × IsCaughtUp l' f'
      success s =
          let (m, fm) = find_match-total (new_match j args l) (
            omega
              (arith, length-set l.match_index j (next - 1 + length args.entries), h.match_room)) in
          let (t, lt) = get_last_log_term-IsLog l.log h.leads in
          let ml =
            find_match-bound (final l.log) m (new_match j args l)
              (All-set (λ v. v ≤ final l.log) l.match_index j (next - 1 + length args.entries)
                h.bounded.matches (omega (arith, size)))
              fm
              (omega (
                arith,
                length-set l.match_index j (next - 1 + length args.entries),
                h.match_room,
              )) in
          let accepted =
            accept_reply_lem j args l m t h.leads h.next_room h.match_room fm lt ml
              h.bounded.committed now in
          let heard = handled j args l g now m t reply term s accepted in
          let (same, _, ends, _) =
            replicates g c l f f' j next now args reply h.leads h.follows h.next_at h.lo h.hi h.term
              call answer s in
          (
            advanced_at j args l now m t,
            record {
              ran =
                  exchange_ran g now j l f (advanced_at j args l now m t) f' args reply call answer
                    heard
                  ∙ ap (λ v. ok (v, advanced_at j args l now m t, f')) s;
              log = ground arith;
              next_at =
                  advanced_next j args l now m t
                  ∙ get_elem?-set_self l.next_index j (next - 1 + length args.entries + 1)
                      h.next_room
                  ∙ ap (λ k. some (k + 1)) size;
              match_at =
                  advanced_match j args l now m t
                  ∙ get_elem?-set_self l.match_index j (next - 1 + length args.entries) h.match_room
                  ∙ ap some size;
              ends = ends;
              same =
                  subst (λ i. drop (next - i) f'.log ≡ drop (next - first l.log) l.log)
                    (sym same_first) same;
            },
          )

      failure :
          reply.success ≡ false
          → (replicated args f.log).1 ≡ false
          → f'.log ≡ (replicated args f.log).0
          → f'.current_term ≡ l.current_term
          → (l' : Raft C D B) × IsCloser l' f'
      failure s refused new at = (
        backed,
        record {
          ran =
              exchange_ran g now j l f backed f' args reply call answer back
              ∙ ap (λ v. ok (v, backed, f')) s;
          log = refl;
          nearer = nearer;
          lower = lower;
          pair = record {
            leads = h.leads;
            follows = subst IsLog (sym new) kept.0;
            term = omega (arith, at);
            head = h.head;
            head' = ap (λ log. get_elem? log 0) new ∙ head_kept;
            head_index = h.head_index;
            head_term = h.head_term;
            next_at = get_elem?-set_self l.next_index j nearer h.next_room;
            lo = ground (arith, lower);
            hi = omega (arith, lower, h.hi);
            next_room = omega (arith, h.next_room, length-set l.next_index j nearer);
            match_room = h.match_room;
            bounded = record { matches = h.bounded.matches; committed = h.bounded.committed };
          };
        },
      )
        where
          apart : next - 1 ≢ first f.log
          apart e = ground (arith, refused, agrees e)

          lower : nearer < next
          lower = ground (arith, apart, same_first, h.lo)

          kept : IsLog (replicated args f.log).0 × (first (replicated args f.log).0 ≡ first f.log)
          kept = replicated-IsLog args f.log h.follows shape agrees

          head_kept : get_elem? (replicated args f.log).0 0 ≡ some y
          head_kept =
              ground (arith, refused, apart, h.head', take-head (next - 1 - first f.log) f.log)

          back : handle_append_reply g now j args reply l ≡ ok (tt, backed)
          back =
              backs_off g now j l args reply (first l.log) term s
                (get_dummy_log_index-IsLog l.log h.leads)
                (λ e. apart (omega (arith, e, same_first))) h.next_room

  -- A round does not panic, and either brings the peer to the end of the leader's log or lowers the
  -- peer's next index.
  pub exchange_lem : (l' f' : Raft C D B) × (IsCaughtUp l' f' ⊎ IsCloser l' f')
  exchange_lem =
      let (item, found, call) = append_args_lem l j next h.leads h.next_at h.lo h.hi in
      let (f', answer, new, _) =
        append_entries_lem g now (args item found) f c h.follows (shape item found) h.term in
      let at : f'.current_term ≡ l.current_term =
        subst (After (λ (b : Raft C D B). b.current_term ≡ l.current_term)) answer
          (answered_term g now (args item found) f h.term) in
      let reply : AppendEntriesReply = record {
        term = l.current_term;
        success = (replicated (args item found) f.log).1;
      } in
      elim (Bool-cases (replicated (args item found) f.log).1) [
        | inl s ↦ let (l', k) = success item found call f' reply answer refl s in (l', f', inl k)
        | inr s ↦
            let (l', k) = failure item found call f' reply answer refl s s new at in (l', f', inr k)
      ]
