-- ===== src/Raft/Matching/Creates.antt =====
-- The invariant of the matching of logs over `Start` of src/raft/raft.go, which creates an entry.
use cosi300a.Prelude.{
  ℕ, ◌+◌, ◌-◌, ◌≡◌, ◌≢◌, ◌<◌, ◌⊎◌, inl, inr, ap, sym, subst, some, arith, ok, List, [], ◌∷◌, ◌++◌,
  nat_eq, ◌&&◌, if◌then◌else◌, Bool-cases, take, take_all, length, refl, All, All_mono, ◌∙◌, After,
  ℤ, Bool,
}
use cosi300a.Raft.Types.{Raft, Labgob, IsCodec, LogItem, command}
use cosi300a.Raft.Log.{get_last_log_index, get_log_item_at_index}
use cosi300a.Raft.Node.{start}
use cosi300a.Raft.Contiguous.{final-append, first, final}
use cosi300a.Raft.Accessors.{get_last_log_index-IsLog, get_log_item_at_index-found}
use cosi300a.Raft.Run.Steps.{Step, started}
use cosi300a.Raft.Cluster.Steps.{with_node}
use cosi300a.Raft.Cluster.Elects.{Elects, background-Elects}
use cosi300a.Raft.Cluster.Safety.{leaders_agree}
use cosi300a.Raft.Matching.Chain.{
  Created, Chain, IsChained, IsChained-IsLog, IsChained-replace, found-IsLog,
}
use cosi300a.Raft.Matching.Traced.{IsTraced, IsSent}
use cosi300a.Raft.Matching.Sends.{Starts, start-Starts}
use cosi300a.Raft.Matching.Keeps.{quiet-Matches}
use cosi300a.Raft.Matching.Network.{Network}
use cosi300a.Raft.Matching.Invariant.{
  IsElected, Leads, IsAppend, Matches, placed_peer, Extends, Chain-Extends, IsTraced-Extends,
}

-- One more entry.
abbrev with_entry : {C : Type 0} → ℕ → ℕ → C × ℕ → Created C → Created C
with_entry t index e created t' index' =
    if nat_eq t t' && nat_eq index index' then some e else created t' index'

-- The last index is found in a log that has a last entry.
last-found :
    {C : Type 0} (created : Created C) (log : List (LogItem C)) (last : ℕ)
    → IsChained created log
    → get_last_log_index log ≡ ok last
    → (x : LogItem C) × (last ≡ final log)
      × (get_log_item_at_index log last ≡ ok x)
      × (take (last + 1 - first log) log ≡ log)
unfolding get_last_log_index
last-found created [] last h e = ground (arith, e)
last-found created (y ∷ ys) last h e =
    let shape = IsChained-IsLog created (y ∷ ys) h (omega arith) in
    let at : last ≡ y.index + length ys =
      ground (arith, e, get_last_log_index-IsLog (y ∷ ys) shape) in
    let (x, f, _, _) =
      get_log_item_at_index-found (y ∷ ys) last shape (omega (arith, at)) (omega (arith, at)) in
    (x, at, f, take_all (last + 1 - y.index) (y ∷ ys) (omega (arith, at)))

module _ {C D B : Type 0} (g : Labgob C D B) (c : IsCodec g) (n : ℕ) (created : Created C)
    (s : Network C D B) (h : Matches g n created s) (i : ℕ) (lt : i < n) (x : C)
    (b : Raft C D B) where
  abbrev a : Raft C D B
  a = s.cluster.nodes i

  abbrev stepped : Network C D B
  stepped = record s { cluster = record s.cluster { nodes = with_node s.cluster.nodes i b } }

  module _ (elects : Elects g n stepped.cluster) (last : ℕ) (previous : LogItem C)
      (at : last ≡ final a.log) (found : get_log_item_at_index a.log last ≡ ok previous)
      (whole : take (last + 1 - first a.log) a.log ≡ a.log) (new : Starts x last a b) where
    abbrev more : Created C
    more = with_entry a.current_term (last + 1) (x, previous.term) created

    grows : Extends created more
    grows t index e made =
        ground (arith, made, (h.leads i lt).above new.leads (last + 1) (omega (arith, at)))

    abbrev item : LogItem C
    item = record { command = command x; term = a.current_term; index = last + 1 }

    item-Chain : Chain more previous.term (last + 1) (item ∷ [])
    item-Chain = (refl, (x, refl, ground arith), tt)

    traced : IsTraced more b
    traced = record {
      log = subst (IsChained more) (sym new.log) (
          subst (λ l. IsChained more (l ++ item ∷ [])) whole
            (IsChained-replace more a.log (item ∷ []) last base.log found item-Chain));
      sent = subst (All (IsSent more)) (sym new.apply_ch) base.sent;
    }
      where
        base : IsTraced more a
        base = IsTraced-Extends created more grows a (h.traced i lt)

    ends : final b.log ≡ last + 1
    ends =
        ap final new.log
        ∙ final-append a.log item (found-IsLog created a.log last (h.traced i lt).log found)
        ∙ omega (arith, at)

    elected : (t : ℕ) → IsElected n s.cluster.counted t i a → IsElected n s.cluster.counted t i b
    elected t k =
        ground (arith, k.within, k.elected, k.reached, k.spent, new.current_term, new.vote_count)

    own : IsElected n s.cluster.counted a.current_term i a
    own = record {
      within = lt;
      elected = (h.elects.nodes i).elected lt new.leads;
      reached = omega arith;
      spent = λ _. (h.leads i lt).spent new.leads;
    }

    leads : (k : ℕ) → k < n → Leads more n s.cluster.counted k (stepped.cluster.nodes k)
    leads =
        placed_peer (λ k a. k < n → Leads more n s.cluster.counted k a) s.cluster.nodes i b
          (λ _. record {
            spent = λ led.
                (subst (λ u. IsElected n s.cluster.counted u i b) (sym new.current_term)
                    (elected a.current_term own)).spent
                  refl;
            above = λ led index behind.
                let unmade =
                  (h.leads i lt).above new.leads index (omega (arith, ends, at, behind)) in
                ground (arith, ends, behind, new.current_term, unmade);
          })
          (λ k ne within. record {
            spent = (h.leads k within).spent;
            above = λ led index behind.
                let other : a.current_term ≢ (s.cluster.nodes k).current_term = (λ same.
                  ne (leaders_agree g c n s.cluster i k h.elects lt within new.leads led same)) in
                ground (arith, other, (h.leads k within).above led index behind);
          })

    creators :
        (t index : ℕ) (e : C × ℕ)
        → more t index ≡ some e
        → (k : ℕ) × IsElected n s.cluster.counted t k (stepped.cluster.nodes k)
    creators t index e made =
        elim (Bool-cases (nat_eq a.current_term t && nat_eq (last + 1) index)) [
          | inl fresh ↦
              let same : a.current_term ≡ t = ground (arith, fresh) in
              (i, placed i (subst (λ u. IsElected n s.cluster.counted u i a) same own))
          | inr old ↦
              let (k, was) = h.creators t index e (ground (arith, made, old)) in (k, placed k was)
        ]
      where
        placed :
            (k : ℕ)
            → IsElected n s.cluster.counted t k (s.cluster.nodes k)
            → IsElected n s.cluster.counted t k (stepped.cluster.nodes k)
        placed =
            placed_peer
              (λ k a.
                IsElected n s.cluster.counted t k (s.cluster.nodes k)
                → IsElected n s.cluster.counted t k a)
              s.cluster.nodes i b (elected t) (λ k ne was. was)

    pub started-Matches : Matches g n more stepped
    started-Matches = record {
      elects = elects;
      traced =
          placed_peer (λ k a. k < n → IsTraced more a) s.cluster.nodes i b (λ _. traced)
            (λ k ne within.
              IsTraced-Extends created more grows (s.cluster.nodes k) (h.traced k within));
      leads = leads;
      creators = creators;
      appends =
          All_mono (IsAppend created n s.cluster.counted) (IsAppend more n s.cluster.counted)
            s.appends
            (λ (to, args) (call, chained). (
              call,
              Chain-Extends created more grows args.prev_log_term (args.prev_log_index + 1)
                  args.entries chained,
            ))
            h.appends;
      installs = h.installs;
    }

  -- The entry that `Start` adds to a leader's log is one that was not created before.
  pub start-Matches :
      (result : ℤ × ℤ × Bool)
      → start g x a ≡ ok (result, b)
      → (more : Created C) × Matches g n more stepped
  start-Matches result e =
      let step : Step g a b = started x result e in
      elim (subst
        (After (λ (y : Raft C D B).
          (y ≡ a) ⊎ ((last : ℕ) × (get_last_log_index a.log ≡ ok last) × Starts x last a y)))
        e (start-Starts g a x)) [
          | inl same ↦ (
            created,
            quiet-Matches g c n created s h i lt b step tt (record {
              traced = subst (IsTraced created) (sym same) (h.traced i lt);
              last = λ _. ap (λ (y : Raft C D B). final y.log) same;
            }),
          )
          | inr (last, here, new) ↦
              let (previous, at, found, whole) =
                last-found created a.log last (h.traced i lt).log here in
              (
                with_entry a.current_term (last + 1) (x, previous.term) created,
                started-Matches (background-Elects g c n s.cluster i b step h.elects tt) last
                    previous at found whole new,
              )
        ]
