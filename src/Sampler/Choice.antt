-- ===== src/Sampler/Choice.antt =====
-- engine/sampler.cpp and backends/cpu/host_compute.cpp: prepare_candidates, sample_token_impl and the
-- argmax outside NEON. Float arithmetic, exp and the next random number are parameters.
pub mod Ids
pub mod Bounds
use palm_infra.Common.{
  ℕ, zero, suc, ◌+◌, ◌-◌, ltb, ◌==◌, Bool, true, false, not, ◌&&◌, ◌||◌, Option, none, some, List,
  [], ◌∷◌, if◌then◌else◌, length, get_or, take, map, ℤ, pos, int_eq, Float32, float_lt, float_eq,
  float_zero, float_one, is_finite,
}
use palm_infra.Sampler.{SamplingParams, float_at_most, is_greedy}
use palm_infra.Sampler.Candidates.{SamplerCandidate, top_candidates}

pub record FloatOps : Type 0 where
  pub add : Float32 → Float32 → Float32
  pub sub : Float32 → Float32 → Float32
  pub mul : Float32 → Float32 → Float32
  pub div : Float32 → Float32 → Float32
  pub exp : Float32 → Float32

pub record Prepared : Type 0 where
  pub candidates : List SamplerCandidate
  pub active : ℕ
  pub sum : Float32

-- The loop from the second logit on, with the best index so far.
unfoldable pub argmax_from : ℕ → List Float32 → ℕ → Float32 → ℕ
argmax_from i [] best best_logit = best
argmax_from i (logit ∷ logits) best best_logit =
    let beats = float_lt best_logit logit in
    argmax_from (i + 1) logits (if beats then i else best) (if beats then logit else best_logit)

unfoldable pub host_argmax_token : List Float32 → ℕ
unfolding argmax_from
host_argmax_token [] = 0
host_argmax_token (logit ∷ logits) = argmax_from 1 logits 0 logit

-- The candidates at the front that reach the threshold.
unfoldable pub count_reaching : Float32 → List SamplerCandidate → ℕ
count_reaching threshold [] = 0
count_reaching threshold (c ∷ cs) =
    if float_at_most threshold c.prob then suc (count_reaching threshold cs) else 0

abbrev pub first_logit : List SamplerCandidate → Float32
first_logit [] = float_zero
first_logit (c ∷ cs) = c.logit

-- The id of a candidate by its place.
abbrev pub candidate_at : List SamplerCandidate → ℕ → ℕ
candidate_at cs i = (get_or cs i (record { id = 0; logit = float_zero; prob = float_zero })).id

module _ (ops : FloatOps) where
  pub weigh : Float32 → Float32 → List SamplerCandidate → List SamplerCandidate
  weigh max_logit inv_t [] = []
  weigh max_logit inv_t (c ∷ cs) =
      record c { prob = ops.exp (ops.mul (ops.sub c.logit max_logit) inv_t) }
      ∷ weigh max_logit inv_t cs

  pub sum_probs : Float32 → List SamplerCandidate → Float32
  sum_probs sum [] = sum
  sum_probs sum (c ∷ cs) = sum_probs (ops.add sum c.prob) cs

  -- The candidates up to the cutoff and their mass, if it is reached.
  pub cut_at : Float32 → ℕ → Float32 → List SamplerCandidate → Option (ℕ × Float32)
  cut_at cutoff i cumulative [] = none
  cut_at cutoff i cumulative (c ∷ cs) =
      let more = ops.add cumulative c.prob in
      if float_at_most cutoff more then some (i + 1, more) else cut_at cutoff (i + 1) more cs

  pub min_p_active : Float32 → SamplerCandidate → List SamplerCandidate → ℕ
  min_p_active min_p best rest =
      if float_lt float_zero min_p
      then suc (count_reaching (ops.mul min_p best.prob) rest)
      else suc (length rest)

  pub top_p_cut : Float32 → List SamplerCandidate → ℕ → Float32 → ℕ × Float32
  top_p_cut top_p candidates active sum =
      if float_lt float_zero top_p && float_lt top_p float_one
      then elim (cut_at (ops.mul top_p sum) 0 float_zero (take active candidates)) [
        | none ↦ (active, sum)
        | some r ↦ r
      ]
      else (active, sum)

  -- From the weighted candidates on.
  pub filter_candidates : Float32 → Float32 → List SamplerCandidate → Prepared
  filter_candidates top_p min_p [] = record { candidates = []; active = 0; sum = float_zero }
  filter_candidates top_p min_p (best ∷ rest) =
      let active = min_p_active min_p best rest in
      let sum = sum_probs float_zero (take active (best ∷ rest)) in
      if not (float_lt float_zero sum) || not (is_finite sum)
      then record {
        candidates = record best { prob = float_one } ∷ rest;
        active = 1;
        sum = float_one;
      }
      else let cut = top_p_cut top_p (best ∷ rest) active sum in
        record { candidates = best ∷ rest; active = cut.0; sum = cut.1 }

  unfoldable pub prepare_candidates : List Float32 → SamplingParams → Prepared
  prepare_candidates logits p =
      let candidates = top_candidates p.top_k logits in
      let inv_t = ops.div float_one p.temperature in
      filter_candidates p.top_p p.min_p (weigh (first_logit candidates) inv_t candidates)

  pub pick : Float32 → Float32 → List SamplerCandidate → ℕ → ℕ
  pick target cumulative [] last = last
  pick target cumulative (c ∷ cs) last =
      let more = ops.add cumulative c.prob in
      if float_at_most target more then c.id else pick target more cs last

  pub draw : Float32 → Prepared → ℕ
  draw u r =
      if r.active == 0
      then 0
      else pick (ops.mul u r.sum) float_zero (take r.active r.candidates)
          (candidate_at r.candidates (r.active - 1))

  -- The token and the random state afterwards; the vocabulary size is the number of logits.
  unfoldable pub sample_token_impl : (ℕ → Float32 × ℕ) → List Float32 → SamplingParams → ℕ → ℕ × ℕ
  sample_token_impl next_uniform logits p seed =
      if length logits == 0
      then (0, seed)
      else if is_greedy p
      then (host_argmax_token logits, seed)
      else let r = next_uniform seed in (draw r.0 (prepare_candidates logits p), r.1)
