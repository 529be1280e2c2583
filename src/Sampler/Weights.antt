-- ===== src/Sampler/Weights.antt =====
-- engine/sampler.cpp: sample_probabilities and speculative_sample. The sums are doubles, a type of its own
-- with operations that are parameters, as are float quotients and differences and the next number.
pub mod Mass
use palm_infra.Common.{
  ℕ, zero, suc, ◌+◌, ltb, leb, ◌==◌, Bool, true, false, not, ◌&&◌, ◌||◌, List, [], ◌∷◌,
  if◌then◌else◌, length, get_or, ℤ, pos, negsuc, Float32, float_lt, float_eq, float_zero, float_one,
  float_max, is_finite,
}
use palm_infra.Sampler.{float_at_most}
use palm_infra.Sampler.Choice.{FloatOps}

-- Double arithmetic as far as the source uses it.
pub record DoubleOps : Type 1 where
  pub Double : Type 0
  pub nothing : Double
  pub add_float : Double → Float32 → Double
  pub scale : Float32 → Double → Double
  pub at_most : Double → Double → Bool
  pub is_positive : Double → Bool
  pub is_finite_double : Double → Bool

-- The weights that count.
unfoldable pub has_mass : Float32 → Bool
has_mass w = float_lt float_zero w && is_finite w

-- std::min(1.0f, x).
abbrev pub at_most_one : Float32 → Float32
at_most_one x = if float_lt x float_one then x else float_one

module _ (ops : FloatOps) where
  unfoldable pub acceptance : Float32 → Float32 → Float32
  acceptance p q = if float_lt float_zero q then at_most_one (ops.div p q) else float_zero

  pub corrections : List Float32 → List Float32 → List Float32
  corrections [] proposal = []
  corrections (t ∷ target) [] = []
  corrections (t ∷ target) (q ∷ proposal) =
      float_max float_zero (ops.sub t q) ∷ corrections target proposal

module _ (doubles : DoubleOps) where
  pub total_mass : doubles.Double → List Float32 → doubles.Double
  total_mass sum [] = sum
  total_mass sum (w ∷ ws) = total_mass (if has_mass w then doubles.add_float sum w else sum) ws

  -- The loop over the weights from one index on, with the last index that counts.
  pub pick_weight : doubles.Double → ℕ → doubles.Double → List Float32 → ℕ → ℕ
  pick_weight target i cumulative [] last = last
  pick_weight target i cumulative (w ∷ ws) last =
      let more = if has_mass w then doubles.add_float cumulative w else cumulative in
      let rest = pick_weight target (i + 1) more ws (if has_mass w then i else last) in
      if has_mass w && doubles.at_most target more then i else rest

  unfoldable pub no_mass : List Float32 → Bool
  no_mass ws =
      let sum = total_mass doubles.nothing ws in
      not (doubles.is_positive sum) || not (doubles.is_finite_double sum)

  module _ (next_uniform : ℕ → Float32 × ℕ) where
    -- The index and the random state afterwards.
    unfoldable pub sample_probabilities : List Float32 → ℕ → ℕ × ℕ
    sample_probabilities ws seed =
        if no_mass ws
        then (0, seed)
        else let r = next_uniform seed in
          let target = doubles.scale r.0 (total_mass doubles.nothing ws) in
          (pick_weight target 0 doubles.nothing ws 0, r.1)

    module _ (ops : FloatOps) where
      -- The draw for a proposed token that is in range: the token, whether it is the proposed one that
      -- was accepted, and the random state.
      pub judge : List Float32 → List Float32 → ℕ → ℕ → ℕ × Bool × ℕ
      judge target proposal token seed =
          let r = next_uniform seed in
          if float_at_most r.0
            (acceptance ops (get_or target token float_zero) (get_or proposal token float_zero))
          then (token, true, r.1)
          else let drawn = sample_probabilities (corrections ops target proposal) r.1 in
            (drawn.0, false, drawn.1)

      pub fall_back : List Float32 → ℕ → ℕ × Bool × ℕ
      fall_back target seed =
          let drawn = sample_probabilities target seed in (drawn.0, false, drawn.1)

      unfoldable pub speculative_sample : List Float32 → List Float32 → ℤ → ℕ → ℕ × Bool × ℕ
      speculative_sample target proposal (negsuc n) seed = fall_back target seed
      speculative_sample target proposal (pos token) seed =
          if not (length target == length proposal)
            || length target == 0
            || leb (length target) token
          then fall_back target seed
          else judge target proposal token seed
