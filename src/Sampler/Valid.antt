-- ===== src/Sampler/Valid.antt =====
-- engine/sampler.cpp: the parameters that validate_sampling_params lets through.
use palm_infra.Common.{
  ◌≤◌, ◌<◌, Bool, true, false, not, ◌||◌, ◌≡◌, ◌↔◌, if◌then◌else◌, refl, arith, pos, negsuc, int_lt,
  Float32, float_lt, float_eq, float_key, magnitude_bits, infinity_bits, is_nan, is_finite,
  float_zero, float_one,
}
use palm_infra.Sampler.{
  SamplingParams, float_at_most, Verdict, valid, bad_temperature, bad_top_k, bad_top_p, bad_min_p,
  bad_repeat_penalty, bad_repeat_last_n, bad_presence_penalty, bad_frequency_penalty,
  validate_sampling_params, is_valid, outside, float_two, float_minus_two,
}

-- A finite number of a range, by the places of its ends on the line of the reals.
pub record IsWithin (low high x : Float32) : Type 0 where
  pub finite : magnitude_bits x < infinity_bits
  pub least : float_key low ≤ float_key x
  pub most : float_key x ≤ float_key high

pub record AreValid (p : SamplingParams) : Type 0 where
  pub temperature : IsWithin float_zero float_two p.temperature
  pub top_k : int_lt p.top_k (pos 0) ≡ false
  pub top_p : IsWithin float_zero float_one p.top_p
  pub min_p : IsWithin float_zero float_one p.min_p
  pub repeat_penalty :
      (magnitude_bits p.repeat_penalty < infinity_bits)
      × (float_key float_zero < float_key p.repeat_penalty)
  pub repeat_last_n : int_lt p.repeat_last_n (negsuc 0) ≡ false
  pub presence_penalty : IsWithin float_minus_two float_two p.presence_penalty
  pub frequency_penalty : IsWithin float_minus_two float_two p.frequency_penalty

-- The ends are numbers.
not_outside :
    (low high x : Float32)
    → is_nan low ≡ false
    → is_nan high ≡ false
    → (outside low high x ≡ false) ↔ IsWithin low high x
unfolding float_lt is_finite
not_outside low high x p q = (λ h. ground arith, λ w. ground arith)

positive_iff :
    (x : Float32)
    → ((not (is_finite x) || float_at_most x float_zero) ≡ false)
      ↔ ((magnitude_bits x < infinity_bits) × (float_key float_zero < float_key x))
unfolding float_lt float_eq is_finite
positive_iff x = (λ h. ground arith, λ w. ground arith)

-- The chain of early returns, by its tests.
abbrev chain : Bool → Bool → Bool → Bool → Bool → Bool → Bool → Bool → Verdict
chain a b c d e f g h =
    if a
    then bad_temperature
    else if b
    then bad_top_k
    else if c
    then bad_top_p
    else if d
    then bad_min_p
    else if e
    then bad_repeat_penalty
    else if f
    then bad_repeat_last_n
    else if g
    then bad_presence_penalty
    else if h
    then bad_frequency_penalty
    else valid

abbrev AllFalse : Bool → Bool → Bool → Bool → Bool → Bool → Bool → Bool → Type 0
AllFalse a b c d e f g h =
    (a ≡ false)
    × (b ≡ false)
    × (c ≡ false)
    × (d ≡ false)
    × (e ≡ false)
    × (f ≡ false)
    × (g ≡ false)
    × (h ≡ false)

chain_parts :
    (a b c d e f g h : Bool) → is_valid (chain a b c d e f g h) ≡ true → AllFalse a b c d e f g h
unfolding is_valid
chain_parts true b c d e f g h v = cc
chain_parts false true c d e f g h v = cc
chain_parts false false true d e f g h v = cc
chain_parts false false false true e f g h v = cc
chain_parts false false false false true f g h v = cc
chain_parts false false false false false true g h v = cc
chain_parts false false false false false false true h v = cc
chain_parts false false false false false false false true v = cc
chain_parts false false false false false false false false v =
    (refl, refl, refl, refl, refl, refl, refl, refl)

chain_valid :
    (a b c d e f g h : Bool) → AllFalse a b c d e f g h → is_valid (chain a b c d e f g h) ≡ true
unfolding is_valid
chain_valid a b c d e f g h (p, q, r, s, t, u, v, w) = rw (p, q, r, s, t, u, v, w)

module _ (p : SamplingParams) where
  abbrev Tests : Type 0
  Tests =
      AllFalse (outside float_zero float_two p.temperature) (int_lt p.top_k (pos 0))
        (outside float_zero float_one p.top_p) (outside float_zero float_one p.min_p)
        (not (is_finite p.repeat_penalty) || float_at_most p.repeat_penalty float_zero)
        (int_lt p.repeat_last_n (negsuc 0)) (outside float_minus_two float_two p.presence_penalty)
        (outside float_minus_two float_two p.frequency_penalty)

  tests_iff : (is_valid (validate_sampling_params p) ≡ true) ↔ Tests
  unfolding validate_sampling_params
  tests_iff = (
    chain_parts (outside float_zero float_two p.temperature) (int_lt p.top_k (pos 0))
        (outside float_zero float_one p.top_p) (outside float_zero float_one p.min_p)
        (not (is_finite p.repeat_penalty) || float_at_most p.repeat_penalty float_zero)
        (int_lt p.repeat_last_n (negsuc 0)) (outside float_minus_two float_two p.presence_penalty)
        (outside float_minus_two float_two p.frequency_penalty),
    chain_valid (outside float_zero float_two p.temperature) (int_lt p.top_k (pos 0))
        (outside float_zero float_one p.top_p) (outside float_zero float_one p.min_p)
        (not (is_finite p.repeat_penalty) || float_at_most p.repeat_penalty float_zero)
        (int_lt p.repeat_last_n (negsuc 0)) (outside float_minus_two float_two p.presence_penalty)
        (outside float_minus_two float_two p.frequency_penalty),
  )

  unit_range :
      (x : Float32) → (outside float_zero float_one x ≡ false) ↔ IsWithin float_zero float_one x
  unfolding is_nan
  unit_range x = not_outside float_zero float_one x refl refl

  two_range :
      (x : Float32) → (outside float_zero float_two x ≡ false) ↔ IsWithin float_zero float_two x
  unfolding is_nan
  two_range x = not_outside float_zero float_two x refl refl

  penalty_range :
      (x : Float32)
      → (outside float_minus_two float_two x ≡ false) ↔ IsWithin float_minus_two float_two x
  unfolding is_nan
  penalty_range x = not_outside float_minus_two float_two x refl refl

  -- validate_sampling_params accepts exactly the finite parameters in the documented ranges: temperature
  -- within 0 and 2, top_p and min_p within 0 and 1, the penalties within -2 and 2, a positive repeat
  -- penalty, a top_k that is not negative, and a window of at least -1.
  pub validate_sampling_params_iff : (is_valid (validate_sampling_params p) ≡ true) ↔ AreValid p
  validate_sampling_params_iff = (
    λ v.
        let (t, k, tp, mp, r, w, pp, fp) = tests_iff.0 v in
        record {
          temperature = (two_range p.temperature).0 t;
          top_k = k;
          top_p = (unit_range p.top_p).0 tp;
          min_p = (unit_range p.min_p).0 mp;
          repeat_penalty = (positive_iff p.repeat_penalty).0 r;
          repeat_last_n = w;
          presence_penalty = (penalty_range p.presence_penalty).0 pp;
          frequency_penalty = (penalty_range p.frequency_penalty).0 fp;
        },
    λ a. tests_iff.1 (
      (two_range p.temperature).1 a.temperature,
      a.top_k,
      (unit_range p.top_p).1 a.top_p,
      (unit_range p.min_p).1 a.min_p,
      (positive_iff p.repeat_penalty).1 a.repeat_penalty,
      a.repeat_last_n,
      (penalty_range p.presence_penalty).1 a.presence_penalty,
      (penalty_range p.frequency_penalty).1 a.frequency_penalty,
    ),
  )
