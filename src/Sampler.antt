-- ===== src/Sampler.antt =====
-- engine/sampler.h and engine/sampler.cpp: the sampling parameters with their checks, and the state of
-- a sampler. Float values are bit patterns that are compared; their arithmetic is a parameter.
pub mod Candidates
pub mod Choice
pub mod Penalties
pub mod Weights
pub mod Valid
use palm_infra.Common.{
  ℕ, zero, suc, ◌≤◌, Bool, true, false, not, ◌&&◌, ◌||◌, List, [], ◌∷◌, ◌++◌, if◌then◌else◌, ℤ, pos,
  negsuc, int_lt, int_eq, Float32, float_lt, float_eq, float_zero, float_one, is_finite, ◌≡◌, ◌↔◌,
  arith,
}

pub record SamplingParams : Type 0 where
  pub temperature : Float32
  pub top_k : ℤ
  pub top_p : Float32
  pub min_p : Float32
  pub repeat_penalty : Float32
  pub repeat_last_n : ℤ
  pub presence_penalty : Float32
  pub frequency_penalty : Float32
  pub seed : ℕ

-- 2.0f and -2.0f.
abbrev pub float_two : Float32
float_two = 1073741824

abbrev pub float_minus_two : Float32
float_minus_two = 3221225472

-- The messages of the source, and the cleared one.
pub data Verdict : Type 0 where
  valid bad_temperature bad_top_k bad_top_p bad_min_p : Verdict
  bad_repeat_penalty bad_repeat_last_n bad_presence_penalty bad_frequency_penalty : Verdict

-- a <= b.
abbrev pub float_at_most : Float32 → Float32 → Bool
float_at_most a b = float_lt a b || float_eq a b

abbrev pub outside : Float32 → Float32 → Float32 → Bool
outside low high x = not (is_finite x) || float_lt x low || float_lt high x

unfoldable pub validate_sampling_params : SamplingParams → Verdict
validate_sampling_params p =
    if outside float_zero float_two p.temperature
    then bad_temperature
    else if int_lt p.top_k (pos 0)
    then bad_top_k
    else if outside float_zero float_one p.top_p
    then bad_top_p
    else if outside float_zero float_one p.min_p
    then bad_min_p
    else if not (is_finite p.repeat_penalty) || float_at_most p.repeat_penalty float_zero
    then bad_repeat_penalty
    else if int_lt p.repeat_last_n (negsuc 0)
    then bad_repeat_last_n
    else if outside float_minus_two float_two p.presence_penalty
    then bad_presence_penalty
    else if outside float_minus_two float_two p.frequency_penalty
    then bad_frequency_penalty
    else valid

unfoldable pub is_valid : Verdict → Bool
is_valid valid = true
is_valid bad_temperature = false
is_valid bad_top_k = false
is_valid bad_top_p = false
is_valid bad_min_p = false
is_valid bad_repeat_penalty = false
is_valid bad_repeat_last_n = false
is_valid bad_presence_penalty = false
is_valid bad_frequency_penalty = false

-- The state between calls; the buffers that each call refills are left out.
pub record Sampler : Type 0 where
  pub params : SamplingParams
  pub random_state : ℕ
  pub history : List ℤ

unfoldable pub configure : Sampler → SamplingParams → Bool → Sampler × Verdict
unfolding validate_sampling_params is_valid
configure s params reset_seed =
    let verdict = validate_sampling_params params in
    if is_valid verdict
    then (
      record s {
        params = params;
        random_state = if reset_seed then params.seed else s.random_state;
      },
      verdict,
    )
    else (s, verdict)

unfoldable pub reset : Sampler → Sampler
reset s = record s { history = []; random_state = s.params.seed }

unfoldable pub accept : Sampler → ℤ → Sampler
accept s token_id =
    if int_lt token_id (pos 0) then s else record s { history = s.history ++ token_id ∷ [] }

unfoldable pub accept_all : Sampler → List ℤ → Sampler
unfolding accept
accept_all s [] = s
accept_all s (token_id ∷ token_ids) = accept_all (accept s token_id) token_ids

unfoldable pub penalties_enabled : SamplingParams → Bool
penalties_enabled p =
    not (int_eq p.repeat_last_n (pos 0))
    && (not (float_eq p.repeat_penalty float_one)
        || not (float_eq p.presence_penalty float_zero)
        || not (float_eq p.frequency_penalty float_zero))

-- The condition under which sampling is an argmax.
unfoldable pub is_greedy : SamplingParams → Bool
is_greedy p = float_at_most p.temperature float_zero || int_eq p.top_k (pos 1)

unfoldable pub uses_plain_argmax : SamplingParams → Bool
unfolding penalties_enabled is_greedy
uses_plain_argmax p = not (penalties_enabled p) && is_greedy p
