-- ===== src/Sampler/Choice/Bounds.antt =====
-- engine/sampler.cpp: the tokens drawn and the candidates in play stay in bounds.
use palm_infra.Common.{ℕ, ◌+◌, ◌≤◌, ◌<◌, min, Option, none, some, length, All, Float32}
use palm_infra.Sampler.Choice.{FloatOps, Prepared}
use palm_infra.Sampler.Choice.Ids.{IdBelow}

module _ (ops : FloatOps) where
  abbrev CutFits : ℕ → ℕ → Option (ℕ × Float32) → Type 0
  CutFits i n none = Unit
  CutFits i n (some r) = (i < r.0) × (r.0 ≤ i + n)

  -- The active candidates exist, and there is one.
  abbrev InBounds : ℕ → ℕ → Type 0
  InBounds active n = (1 ≤ active) × (active ≤ n)

  -- Candidates of the vocabulary, and at least one of them active if there is any.
  abbrev pub Ready : ℕ → Prepared → Type 0
  Ready n r =
      All (IdBelow n) r.candidates
      × (r.active ≤ length r.candidates)
      × (min 1 (length r.candidates) ≤ r.active)
