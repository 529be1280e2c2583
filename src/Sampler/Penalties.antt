-- ===== src/Sampler/Penalties.antt =====
-- engine/sampler.cpp: Sampler::sample with its penalties on the logits of recent tokens.
pub mod Restored
use palm_infra.Common.{
  ℕ, zero, suc, ◌+◌, ◌-◌, min, ltb, ◌==◌, Bool, true, false, not, ◌&&◌, List, [], ◌∷◌, ◌++◌,
  if◌then◌else◌, length, get_or, set, drop, ℤ, pos, negsuc, Float32, float_lt, float_eq, float_zero,
  float_one,
}
use palm_infra.Sampler.{SamplingParams, Sampler, penalties_enabled}
use palm_infra.Sampler.Choice.{FloatOps, sample_token_impl}

-- The number of recent tokens that count.
unfoldable pub window_size : ℤ → ℕ → ℕ
window_size (negsuc n) size = size
window_size (pos n) size = min size n

-- ++counts[token_id].
unfoldable pub count_token : ℕ → List (ℕ × ℕ) → List (ℕ × ℕ)
count_token t [] = (t, 1) ∷ []
count_token t ((u, n) ∷ counts) =
    if u == t then (u, n + 1) ∷ counts else (u, n) ∷ count_token t counts

-- Tokens outside the vocabulary do not count.
unfoldable pub count_known : ℕ → ℤ → List (ℕ × ℕ) → List (ℕ × ℕ)
unfolding count_token
count_known vocab_size (negsuc n) counts = counts
count_known vocab_size (pos t) counts = if ltb t vocab_size then count_token t counts else counts

unfoldable pub count_tokens : ℕ → List ℤ → List (ℕ × ℕ) → List (ℕ × ℕ)
unfolding count_known
count_tokens vocab_size [] counts = counts
count_tokens vocab_size (t ∷ ts) counts =
    count_tokens vocab_size ts (count_known vocab_size t counts)

unfoldable pub recent_counts : Sampler → ℕ → List (ℕ × ℕ)
unfolding window_size count_tokens
recent_counts s vocab_size =
    let size = length s.history in
    count_tokens vocab_size (drop (size - window_size s.params.repeat_last_n size) s.history) []

unfoldable pub restore : List (ℕ × Float32) → List Float32 → List Float32
restore [] logits = logits
restore ((t, logit) ∷ saved) logits = restore saved (set logits t logit)

-- A float product with an int is a parameter too.
module _ (ops : FloatOps) (times : Float32 → ℕ → Float32) where
  unfoldable pub penalize : SamplingParams → ℕ → Float32 → Float32
  penalize p count logit =
      let repeated =
        if float_eq p.repeat_penalty float_one
        then logit
        else if float_lt float_zero logit
        then ops.div logit p.repeat_penalty
        else ops.mul logit p.repeat_penalty in
      ops.sub (ops.sub repeated p.presence_penalty) (times p.frequency_penalty count)

  -- The loop over the counts, which saves each logit before it changes.
  unfoldable pub penalize_all :
      SamplingParams
      → List (ℕ × ℕ)
      → List Float32
      → List (ℕ × Float32)
      → List Float32 × List (ℕ × Float32)
  unfolding penalize
  penalize_all p [] logits saved = (logits, saved)
  penalize_all p ((t, n) ∷ counts) logits saved =
      let logit = get_or logits t float_zero in
      penalize_all p counts (set logits t (penalize p n logit)) (saved ++ (t, logit) ∷ [])

  -- Sampling from the adjusted logits, with those saved; the token, the logits as they are left, and
  -- the sampler.
  pub sample_adjusted :
      (ℕ → Float32 × ℕ) → Sampler → List Float32 × List (ℕ × Float32) → ℕ × List Float32 × Sampler
  unfolding restore
  sample_adjusted next_uniform s (adjusted, saved) =
      let r = sample_token_impl ops next_uniform adjusted s.params s.random_state in
      (r.0, restore saved adjusted, record s { random_state = r.1 })

  -- `visit` is the order in which the map hands out its entries.
  unfoldable pub sample :
      (List (ℕ × ℕ) → List (ℕ × ℕ))
      → (ℕ → Float32 × ℕ)
      → Sampler
      → List Float32
      → ℕ × List Float32 × Sampler
  unfolding sample_adjusted
  sample visit next_uniform s logits =
      if penalties_enabled s.params
      then sample_adjusted next_uniform s
          (penalize_all s.params (visit (recent_counts s (length logits))) logits [])
      else sample_adjusted next_uniform s (logits, [])
