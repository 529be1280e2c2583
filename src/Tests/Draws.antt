-- ===== src/Tests/Draws.antt =====
-- Concrete runs of the theorems on the sampler.
use palm_infra.Common.{
  ℕ, ◌<◌, ltb, ◌≡◌, ◌⊎◌, ◌↔◌, refl, arith, true, false, List, [], ◌∷◌, get_or, sum_of, take, All,
  pos, Float32, float_zero, float_one, float_lt, is_nan,
}
use palm_infra.Sampler.{SamplingParams, Sampler, validate_sampling_params, is_valid}
use palm_infra.Sampler.Valid.{AreValid, validate_sampling_params_iff}
use palm_infra.Sampler.Candidates.{SamplerCandidate, top_candidates}
use palm_infra.Sampler.Candidates.TopK.{Sorted}
use palm_infra.Sampler.Candidates.Ranking.{candidates_from, top_candidates_lem}
use palm_infra.Sampler.Choice.{FloatOps}
use palm_infra.Sampler.Penalties.{sample}
use palm_infra.Sampler.Penalties.Restored.{sample_restores}
use palm_infra.Sampler.Weights.{
  DoubleOps, has_mass, no_mass, sample_probabilities, acceptance, speculative_sample,
}
use palm_infra.Sampler.Weights.Mass.{sample_probabilities_lem, speculative_sample_zero}

-- The defaults of the source.
abbrev defaults : SamplingParams
defaults = record {
  temperature = 1058642330;
  top_k = pos 50;
  top_p = 1063675494;
  min_p = 0;
  repeat_penalty = float_one;
  repeat_last_n = pos 64;
  presence_penalty = 0;
  frequency_penalty = 0;
  seed = 42;
}

-- Stand-ins that are total, with a quotient that is exact for a numerator of zero.
abbrev coarse : FloatOps
coarse = record {
  add = λ a b. a;
  sub = λ a b. a;
  mul = λ a b. a;
  div = λ a b. a;
  exp = λ a. float_one;
}

abbrev counting : DoubleOps
counting = record {
  Double = ℕ;
  nothing = 0;
  add_float = λ a w. a;
  scale = λ u a. a;
  at_most = λ a b. true;
  is_positive = λ a. ltb 0 a;
  is_finite_double = λ a. true;
}

-- 1, 2 and 0.
abbrev three_logits : List Float32
three_logits = float_one ∷ 1073741824 ∷ 0 ∷ []

three_numbers : All (λ l. is_nan l ≡ false) three_logits
unfolding is_nan
three_numbers = (refl, (refl, (refl, tt)))

abbrev zero_uniform : ℕ → Float32 × ℕ
zero_uniform seed = (0, seed)

validate_sampling_params_iff_example :
    (is_valid (validate_sampling_params defaults) ≡ true) ↔ AreValid defaults
validate_sampling_params_iff_example = validate_sampling_params_iff defaults

top_candidates_lem_example :
    (ranked : List SamplerCandidate) × Sorted ranked
    × ((f : SamplerCandidate → ℕ) → sum_of f ranked ≡ sum_of f (candidates_from 0 three_logits))
    × (top_candidates (pos 2) three_logits ≡ take 2 ranked)
top_candidates_lem_example = top_candidates_lem (pos 2) three_logits three_numbers

-- A repeat penalty of 2 on the token 1.
abbrev repeating : Sampler
repeating = record {
  params = record defaults { repeat_penalty = 1073741824 };
  random_state = 42;
  history = pos 1 ∷ [];
}

sample_restores_example :
    (sample coarse (λ w n. w) (λ counts. counts) zero_uniform repeating three_logits).1
    ≡ three_logits
sample_restores_example =
    sample_restores coarse (λ w n. w) (λ counts. counts) zero_uniform repeating three_logits
      (λ counts d. d)

sample_probabilities_lem_example :
    (((sample_probabilities counting zero_uniform three_logits 42).0 < 3)
      × (has_mass (
            get_or three_logits
              (sample_probabilities counting zero_uniform three_logits 42).0
              float_zero)
          ≡ true))
    ⊎ ((no_mass counting three_logits ≡ true)
        × (sample_probabilities counting zero_uniform three_logits 42 ≡ (0, 42)))
sample_probabilities_lem_example =
    sample_probabilities_lem counting zero_uniform three_logits 42 refl

-- The target gives token 0 nothing, and the proposal gives it everything.
abbrev second_only : List Float32
second_only = 0 ∷ float_one ∷ []

abbrev first_only : List Float32
first_only = float_one ∷ 0 ∷ []

zero_acceptance :
    acceptance coarse (get_or second_only 0 float_zero) (get_or first_only 0 float_zero)
    ≡ float_zero
unfolding acceptance float_lt
zero_acceptance = refl

speculative_sample_zero_example :
    speculative_sample counting zero_uniform coarse second_only first_only (pos 0) 42
    ≡ (0, true, 42)
speculative_sample_zero_example =
    speculative_sample_zero counting zero_uniform coarse second_only first_only 0 42 refl
      (omega arith) zero_acceptance refl
