-- ===== src/Sampler/Choice/Ids.antt =====
-- engine/sampler.cpp: the ids of the tokens and candidates.
use palm_infra.Common.{
  ℕ, ◌+◌, ◌≤◌, ◌<◌, ltb, Bool, true, false, List, [], ◌∷◌, if◌then◌else◌, length, All, arith, inl,
  inr, Bool-cases, ℤ, Float32, float_lt, float_zero,
}
use palm_infra.Sampler.Candidates.{
  SamplerCandidate, insert_by_logit, sort_by_logit, without_front, replace_front, offer,
  select_from, kept_count, top_candidates,
}
use palm_infra.Sampler.Candidates.Ranking.{All-insert_by_logit}
use palm_infra.Sampler.Choice.{argmax_from, host_argmax_token, count_reaching}

argmax_from-lt :
    (i : ℕ) (logits : List Float32) (best : ℕ) (b : Float32)
    → best < i
    → argmax_from i logits best b < i + length logits
unfolding argmax_from
argmax_from-lt i [] best b h = omega arith
argmax_from-lt i (l ∷ ls) best b h =
    let beats = float_lt b l in
    let best' = if beats then i else best in
    omega (arith, argmax_from-lt (i + 1) ls best' (if beats then l else b) (ground arith))

pub host_argmax_token-lt :
    (logits : List Float32) → 0 < length logits → host_argmax_token logits < length logits
unfolding host_argmax_token
host_argmax_token-lt [] h = h
host_argmax_token-lt (l ∷ ls) h = omega (arith, argmax_from-lt 1 ls 0 l (omega arith))

-- A candidate of the vocabulary.
abbrev pub IdBelow : ℕ → SamplerCandidate → Type 0
IdBelow n c = c.id < n

All-without_front :
    (P : SamplerCandidate → Type 0) (x : SamplerCandidate) (xs : List SamplerCandidate)
    → All P (x ∷ xs)
    → All P (without_front x xs)
All-without_front P x [] a = tt
All-without_front P x (y ∷ ys) a = (a.0, All-without_front P y ys a.1)

All-replace_front :
    (P : SamplerCandidate → Type 0) (c : SamplerCandidate) (heap : List SamplerCandidate)
    → P c
    → All P heap
    → All P (replace_front c heap)
unfolding replace_front
All-replace_front P c [] p a = tt
All-replace_front P c (x ∷ xs) p a =
    by_test _ (All-insert_by_logit P c (without_front x xs) p (All-without_front P x xs a)) a
  where
    by_test :
        (b : Bool)
        → All P (insert_by_logit c (without_front x xs))
        → All P (x ∷ xs)
        → All P (if b then insert_by_logit c (without_front x xs) else x ∷ xs)
    by_test true q r = q
    by_test false q r = r

All-offer :
    (P : SamplerCandidate → Type 0) (k : ℕ) (heap : List SamplerCandidate) (c : SamplerCandidate)
    → P c
    → All P heap
    → All P (offer k heap c)
unfolding offer
All-offer P k heap c p a = elim (Bool-cases (ltb (length heap) k)) [
  | inl h ↦ rw h (All-insert_by_logit P c heap p a)
  | inr h ↦ rw h (All-replace_front P c heap p a)
]

IdBelow-select_from :
    (n k i : ℕ) (logits : List Float32) (heap : List SamplerCandidate)
    → i + length logits ≤ n
    → All (IdBelow n) heap
    → All (IdBelow n) (select_from k i logits heap)
unfolding select_from
IdBelow-select_from n k i [] heap h a = a
IdBelow-select_from n k i (l ∷ ls) heap h a =
    let c : SamplerCandidate = record { id = i; logit = l; prob = float_zero } in
    IdBelow-select_from n k (i + 1) ls (offer k heap c) (omega arith)
      (All-offer (IdBelow n) k heap c (omega arith) a)

All-sort_by_logit :
    (P : SamplerCandidate → Type 0) (cs : List SamplerCandidate)
    → All P cs
    → All P (sort_by_logit cs)
unfolding sort_by_logit
All-sort_by_logit P [] a = tt
All-sort_by_logit P (c ∷ cs) a =
    All-insert_by_logit P c (sort_by_logit cs) a.0 (All-sort_by_logit P cs a.1)

pub IdBelow-top_candidates :
    (top_k : ℤ) (logits : List Float32)
    → All (IdBelow (length logits)) (top_candidates top_k logits)
unfolding top_candidates
IdBelow-top_candidates top_k logits =
    let n = length logits in
    let heap = select_from (kept_count top_k n) 0 logits [] in
    All-sort_by_logit (IdBelow n) heap
      (IdBelow-select_from n (kept_count top_k n) 0 logits [] (omega arith) tt)

pub count_reaching-le : (t : Float32) (cs : List SamplerCandidate) → count_reaching t cs ≤ length cs
unfolding count_reaching
count_reaching-le t [] = omega arith
count_reaching-le t (c ∷ cs) = ground (arith, count_reaching-le t cs)
