-- ===== src/Sampler/Weights/Mass.antt =====
-- engine/sampler.cpp: what sample_probabilities and speculative_sample draw.
use palm_infra.Common.{
  ℕ, suc, ◌+◌, ◌<◌, leb, ◌==◌, true, false, not, ◌||◌, List, [], ◌∷◌, length, get_or, any_of, ◌≡◌,
  ◌⊎◌, refl, ◌∙◌, arith, inl, inr, Bool-cases, pos, Float32, float_zero, float_lt, float_eq,
}
use palm_infra.Sampler.{float_at_most}
use palm_infra.Sampler.Choice.{FloatOps}
use palm_infra.Sampler.Weights.{
  DoubleOps, has_mass, total_mass, pick_weight, no_mass, sample_probabilities, acceptance, judge,
  speculative_sample,
}

module _ (d : DoubleOps) where
  total_mass-none :
      (sum : d.Double) (ws : List Float32) → any_of has_mass ws ≡ false → total_mass d sum ws ≡ sum
  unfolding total_mass
  total_mass-none sum [] h = refl
  total_mass-none sum (w ∷ ws) h =
      let light : has_mass w ≡ false = ground arith in
      rw light (total_mass-none sum ws (ground arith))

  pick_weight-none :
      (target : d.Double) (i : ℕ) (m : d.Double) (ws : List Float32) (last : ℕ)
      → any_of has_mass ws ≡ false
      → pick_weight d target i m ws last ≡ last
  unfolding pick_weight
  pick_weight-none target i m [] last h = refl
  pick_weight-none target i m (w ∷ ws) last h =
      let light : has_mass w ≡ false = ground arith in
      rw light (pick_weight-none target (i + 1) m ws last (ground arith))

  -- The index, from an offset on, of a weight that counts.
  abbrev Heavy : ℕ → List Float32 → ℕ → Type 0
  Heavy i ws r =
      (j : ℕ) × (j < length ws) × (has_mass (get_or ws j float_zero) ≡ true) × (r ≡ i + j)

  Heavy-later :
      (i r : ℕ) (w : Float32) (ws : List Float32) → Heavy (i + 1) ws r → Heavy i (w ∷ ws) r
  Heavy-later i r w ws (j, a, b, c) = (suc j, omega arith, b, omega arith)

  pick_weight-Heavy :
      (target : d.Double) (i : ℕ) (m : d.Double) (ws : List Float32) (last : ℕ)
      → any_of has_mass ws ≡ true
      → Heavy i ws (pick_weight d target i m ws last)
  unfolding pick_weight
  pick_weight-Heavy target i m [] last h = cc
  pick_weight-Heavy target i m (w ∷ ws) last h = elim (Bool-cases (has_mass w)) [
    | inr light ↦ rw light (
        Heavy-later i (pick_weight d target (i + 1) m ws last) w ws
          (pick_weight-Heavy target (i + 1) m ws last (ground arith)))
    | inl heavy ↦
        let more = d.add_float m w in
        let rest = pick_weight d target (i + 1) more ws i in
        let below : Heavy i (w ∷ ws) rest = elim (Bool-cases (any_of has_mass ws)) [
          | inl a ↦ Heavy-later i rest w ws (pick_weight-Heavy target (i + 1) more ws i a)
          | inr a ↦
              (0, omega arith, heavy, pick_weight-none target (i + 1) more ws i a ∙ omega arith)
        ] in
        elim (Bool-cases (d.at_most target more)) [
          | inl a ↦ rw (heavy, a) (0, omega arith, heavy, omega arith)
          | inr a ↦ rw (heavy, a) below
        ]
  ]

no_mass-none :
    (d : DoubleOps) (ws : List Float32)
    → d.is_positive d.nothing ≡ false
    → any_of has_mass ws ≡ false
    → no_mass d ws ≡ true
unfolding no_mass
no_mass-none d ws z a = rw (total_mass-none d d.nothing ws a, z)

zero_at_most : float_at_most float_zero float_zero ≡ true
unfolding float_lt float_eq
zero_at_most = refl

-- For any weights, any random numbers and any double arithmetic in which zero is not positive, the index
-- drawn is that of a weight that is positive and finite; or there is no finite mass, and zero comes
-- back with the random state unchanged.
pub sample_probabilities_lem :
    (d : DoubleOps) (next_uniform : ℕ → Float32 × ℕ) (ws : List Float32) (seed : ℕ)
    → d.is_positive d.nothing ≡ false
    → let r = sample_probabilities d next_uniform ws seed in
      ((r.0 < length ws) × (has_mass (get_or ws r.0 float_zero) ≡ true))
      ⊎ ((no_mass d ws ≡ true) × (r ≡ (0, seed)))
unfolding sample_probabilities
sample_probabilities_lem d next_uniform ws seed z = elim (Bool-cases (no_mass d ws)) [
  | inl h ↦ rw h (inr (refl, refl))
  | inr h ↦
      let target = d.scale (next_uniform seed).0 (total_mass d d.nothing ws) in
      let picked = pick_weight d target 0 d.nothing ws 0 in
      rw h (
        inl (elim (Bool-cases (any_of has_mass ws)) [
          | inl a ↦ in_front picked (pick_weight-Heavy d target 0 d.nothing ws 0 a)
          | inr a ↦ absurd (never a h)
        ]))
]
  where
    in_front :
        (r : ℕ) → Heavy d 0 ws r → (r < length ws) × (has_mass (get_or ws r float_zero) ≡ true)
    in_front r (j, a, b, c) = let same : r ≡ j = omega arith in rw same (a, b)

    never : any_of has_mass ws ≡ false → no_mass d ws ≡ false → ⊥
    never a h = let bad = no_mass-none d ws z a in absurd (cc)

-- For a proposed token in range whose acceptance is zero, as where the target gives it no mass, a random
-- number of exactly zero accepts it.
pub speculative_sample_zero :
    (d : DoubleOps) (next_uniform : ℕ → Float32 × ℕ) (ops : FloatOps)
    (target proposal : List Float32) (token seed : ℕ)
    → length target ≡ length proposal
    → token < length target
    → acceptance ops (get_or target token float_zero) (get_or proposal token float_zero)
      ≡ float_zero
    → (next_uniform seed).0 ≡ float_zero
    → speculative_sample d next_uniform ops target proposal (pos token) seed
      ≡ (token, true, (next_uniform seed).1)
unfolding speculative_sample judge
speculative_sample_zero d next_uniform ops target proposal token seed e h a u =
    let tests : (not (length target == length proposal)
          || length target == 0
          || leb (length target) token)
        ≡ false =
      ground arith in
    rw (tests, a, u, zero_at_most)
