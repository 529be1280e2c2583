-- ===== src/Sampler/Candidates.antt =====
-- engine/sampler.cpp: the candidates of prepare_candidates and their selection by a bounded heap.
pub mod TopK
pub mod Ranking
use palm_infra.Common.{
  ℕ, zero, suc, ◌+◌, ltb, leb, ◌==◌, min, Bool, true, false, not, ◌&&◌, ◌||◌, List, [], ◌∷◌, ◌++◌,
  if◌then◌else◌, length, ℤ, pos, negsuc, Float32, float_lt, float_eq, float_zero,
}

pub record SamplerCandidate : Type 0 where
  pub id : ℕ
  pub logit : Float32
  pub prob : Float32

-- The order of the heap and of the sort: higher logits first, then lower ids.
unfoldable pub better : SamplerCandidate → SamplerCandidate → Bool
better a b = if not (float_eq a.logit b.logit) then float_lt b.logit a.logit else ltb a.id b.id

unfoldable pub insert_by_logit : SamplerCandidate → List SamplerCandidate → List SamplerCandidate
insert_by_logit c [] = c ∷ []
insert_by_logit c (x ∷ xs) = if better c x then c ∷ x ∷ xs else x ∷ insert_by_logit c xs

-- std::sort under this order.
unfoldable pub sort_by_logit : List SamplerCandidate → List SamplerCandidate
unfolding insert_by_logit
sort_by_logit [] = []
sort_by_logit (c ∷ cs) = insert_by_logit c (sort_by_logit cs)

-- The heap as its elements, the best one first, so that its front() is the last of them.
abbrev pub heap_front : SamplerCandidate → List SamplerCandidate → SamplerCandidate
heap_front x [] = x
heap_front x (y ∷ ys) = heap_front y ys

abbrev pub without_front : SamplerCandidate → List SamplerCandidate → List SamplerCandidate
without_front x [] = []
without_front x (y ∷ ys) = x ∷ without_front y ys

-- A candidate that beats the front takes its place.
unfoldable pub replace_front : SamplerCandidate → List SamplerCandidate → List SamplerCandidate
unfolding insert_by_logit
replace_front c [] = []
replace_front c (x ∷ xs) =
    let front = heap_front x xs in
    if float_lt front.logit c.logit || float_eq c.logit front.logit && ltb c.id front.id
    then insert_by_logit c (without_front x xs)
    else x ∷ xs

unfoldable pub offer : ℕ → List SamplerCandidate → SamplerCandidate → List SamplerCandidate
unfolding insert_by_logit replace_front
offer k heap c = if ltb (length heap) k then insert_by_logit c heap else replace_front c heap

-- The loop over the logits from one id on.
unfoldable pub select_from : ℕ → ℕ → List Float32 → List SamplerCandidate → List SamplerCandidate
unfolding offer
select_from k i [] heap = heap
select_from k i (logit ∷ logits) heap =
    select_from k (i + 1) logits
      (offer k heap (record { id = i; logit = logit; prob = float_zero }))

-- How many candidates are kept.
abbrev pub kept_count : ℤ → ℕ → ℕ
kept_count (pos zero) vocab_size = vocab_size
kept_count (pos (suc k)) vocab_size = min (suc k) vocab_size
kept_count (negsuc k) vocab_size = vocab_size

unfoldable pub top_candidates : ℤ → List Float32 → List SamplerCandidate
top_candidates top_k logits =
    sort_by_logit (select_from (kept_count top_k (length logits)) 0 logits [])
