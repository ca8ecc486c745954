-- ===== src/Kvraft/Answers.antt =====
-- src/kvraft/client.go: the reply that a clerk takes.
use cosi300a.Prelude.{
  ℕ, ◌≡◌, ◌⊎◌, inl, inr, refl, ap, none, some, Option, List, [], ◌∷◌, ◌++◌, arith, String, All,
  Option-cases,
}
use cosi300a.Kvraft.Types.{Err, err_no_key, GetReply}
use cosi300a.Kvraft.Clerk.{Call, await_answer, get_answer}

-- A reply that answers has a value for a key that is there, or none for one that is not.
get_answer-Err :
    (reply : Option GetReply) (value : String)
    → get_answer reply ≡ some value
    → (r : GetReply) × (reply ≡ some r)
      × (r.value ≡ value)
      × ((r.err ≡ Err.ok) ⊎ (r.err ≡ err_no_key))
get_answer-Err none value e = cc
get_answer-Err (some r) value e = (r, refl, ground (arith, e), ground (arith, e))

-- The answer to a clerk's `Get` is the value of a reply that says that the key is there or that it
-- is missing, from the server that the clerk names, and no call that returned before it had such a
-- reply.
pub await_answer_lem :
    (calls : List (Call GetReply)) (value : String) (j : ℕ)
    → await_answer calls ≡ some (value, j)
    → (before after : List (Call GetReply)) × (reply : GetReply) × (calls
        ≡ before ++ (j, some reply) ∷ after)
      × (reply.value ≡ value)
      × ((reply.err ≡ Err.ok) ⊎ (reply.err ≡ err_no_key))
      × All (λ call. get_answer call.1 ≡ none) before
unfolding await_answer
await_answer_lem [] value j e = cc
await_answer_lem ((i, reply) ∷ calls) value j e = elim (Option-cases (get_answer reply)) [
  | inl nothing ↦
      let (before, after, r, split, v, err, rest) =
        await_answer_lem calls value j (ground (arith, e, nothing)) in
      ((i, reply) ∷ before, after, r, ap (λ cs. (i, reply) ∷ cs) split, v, err, (nothing, rest))
  | inr (found, answer) ↦
      let (r, is, v, err) = get_answer-Err reply found answer in
      ([], calls, r, ground (arith, e, answer, is), ground (arith, e, answer, v), err, tt)
]
