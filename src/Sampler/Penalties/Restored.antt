-- ===== src/Sampler/Penalties/Restored.antt =====
-- engine/sampler.cpp: Sampler::sample leaves the logits as it found them.
use palm_infra.Common.{
  ℕ, ltb, ◌==◌, List, [], ◌∷◌, ◌++◌, length, get_or, set, set-set_same, set-set_other, set-get_or,
  get_or-set_other, drop, All, ◌≡◌, ◌≢◌, refl, sym, ap, ◌∙◌, arith, inl, inr, Bool-cases, ℤ, pos,
  negsuc, Float32, float_zero,
}
use mathlib.Core.List.{append_assoc, append-nil}
use palm_infra.Sampler.{SamplingParams, Sampler, penalties_enabled}
use palm_infra.Sampler.Choice.{FloatOps}
use palm_infra.Sampler.Penalties.{
  count_token, count_known, count_tokens, recent_counts, penalize, penalize_all, restore,
  sample_adjusted, sample,
}

-- The token has no entry, and no token has two.
abbrev pub Absent : ℕ → List (ℕ × ℕ) → Type 0
Absent t counts = All (λ e. t ≢ e.0) counts

abbrev pub Distinct : List (ℕ × ℕ) → Type 0
Distinct [] = Unit
Distinct ((t, n) ∷ counts) = Absent t counts × Distinct counts

Absent-count_token :
    (u t : ℕ) (counts : List (ℕ × ℕ)) → u ≢ t → Absent u counts → Absent u (count_token t counts)
unfolding count_token
Absent-count_token u t [] n a = (n, tt)
Absent-count_token u t ((v, k) ∷ counts) n a = elim (Bool-cases (v == t)) [
  | inl h ↦ rw h a
  | inr h ↦ rw h (a.0, Absent-count_token u t counts n a.1)
]

Distinct-count_token :
    (t : ℕ) (counts : List (ℕ × ℕ)) → Distinct counts → Distinct (count_token t counts)
unfolding count_token
Distinct-count_token t [] d = (tt, tt)
Distinct-count_token t ((v, k) ∷ counts) d = elim (Bool-cases (v == t)) [
  | inl h ↦ rw h d
  | inr h ↦
      let other : v ≢ t = λ e. ground arith in
      rw h (Absent-count_token v t counts other d.0, Distinct-count_token t counts d.1)
]

Distinct-count_known :
    (n : ℕ) (t : ℤ) (counts : List (ℕ × ℕ)) → Distinct counts → Distinct (count_known n t counts)
unfolding count_known
Distinct-count_known n (negsuc k) counts d = d
Distinct-count_known n (pos t) counts d = elim (Bool-cases (ltb t n)) [
  | inl h ↦ rw h (Distinct-count_token t counts d)
  | inr h ↦ rw h d
]

Distinct-count_tokens :
    (n : ℕ) (ts : List ℤ) (counts : List (ℕ × ℕ))
    → Distinct counts
    → Distinct (count_tokens n ts counts)
unfolding count_tokens
Distinct-count_tokens n [] counts d = d
Distinct-count_tokens n (t ∷ ts) counts d =
    Distinct-count_tokens n ts (count_known n t counts) (Distinct-count_known n t counts d)

Distinct-recent_counts : (s : Sampler) (n : ℕ) → Distinct (recent_counts s n)
unfolding recent_counts
Distinct-recent_counts s n = Distinct-count_tokens n (drop _ s.history) [] tt

module _ (ops : FloatOps) (times : Float32 → ℕ → Float32) (p : SamplingParams) where
  -- The two results of the loop, each by itself.
  abbrev adjusted : List (ℕ × ℕ) → List Float32 → List Float32
  adjusted [] logits = logits
  adjusted ((t, n) ∷ counts) logits =
      adjusted counts (set logits t (penalize ops times p n (get_or logits t float_zero)))

  abbrev saved : List (ℕ × ℕ) → List Float32 → List (ℕ × Float32)
  saved [] logits = []
  saved ((t, n) ∷ counts) logits =
      (t, get_or logits t float_zero)
      ∷ saved counts (set logits t (penalize ops times p n (get_or logits t float_zero)))

  penalize_all_lem :
      (counts : List (ℕ × ℕ)) (logits : List Float32) (before : List (ℕ × Float32))
      → penalize_all ops times p counts logits before
        ≡ (adjusted counts logits, before ++ saved counts logits)
  unfolding penalize_all
  penalize_all_lem [] logits before = rw (append-nil before)
  penalize_all_lem ((t, n) ∷ counts) logits before =
      let x = get_or logits t float_zero in
      let changed = set logits t (penalize ops times p n x) in
      penalize_all_lem counts changed (before ++ (t, x) ∷ [])
      ∙ ap (λ (s : List (ℕ × Float32)). (adjusted counts changed, s))
          (append_assoc before ((t, x) ∷ []) (saved counts changed))

  -- A token without an entry.
  adjusted-set :
      (t : ℕ) (v : Float32) (counts : List (ℕ × ℕ)) (logits : List Float32)
      → Absent t counts
      → set (adjusted counts logits) t v ≡ adjusted counts (set logits t v)
  adjusted-set t v [] logits a = refl
  adjusted-set t v ((u, n) ∷ counts) logits a =
      let new = penalize ops times p n (get_or logits u float_zero) in
      adjusted-set t v counts (set logits u new) a.1
      ∙ rw (
        set-set_other logits u t new v (λ e. a.0 (sym e)),
        get_or-set_other logits t u v float_zero a.0,
      )

  saved-set :
      (t : ℕ) (v : Float32) (counts : List (ℕ × ℕ)) (logits : List Float32)
      → Absent t counts
      → saved counts (set logits t v) ≡ saved counts logits
  saved-set t v [] logits a = refl
  saved-set t v ((u, n) ∷ counts) logits a =
      let x = get_or logits u float_zero in
      let new = penalize ops times p n x in
      rw (
        get_or-set_other logits t u v float_zero a.0,
        set-set_other logits t u v new a.0,
        saved-set t v counts (set logits u new) a.1,
      )

  restore-adjusted :
      (counts : List (ℕ × ℕ)) (logits : List Float32)
      → Distinct counts
      → restore (saved counts logits) (adjusted counts logits) ≡ logits
  unfolding restore
  restore-adjusted [] logits d = refl
  restore-adjusted ((t, n) ∷ counts) logits d =
      let x = get_or logits t float_zero in
      let new = penalize ops times p n x in
      let changed = set logits t new in
      let back = set-set_same logits t new x ∙ set-get_or logits t float_zero in
      ap (restore (saved counts changed))
        (adjusted-set t x counts changed d.0 ∙ ap (adjusted counts) back)
      ∙ ap (λ (s : List (ℕ × Float32)). restore s (adjusted counts logits))
          (saved-set t new counts logits d.0)
      ∙ restore-adjusted counts logits d.1

-- Whatever the arithmetic, the random numbers and the order in which the map of counts hands out its
-- entries, as long as it hands out none twice, sampling leaves all logits as they were.
pub sample_restores :
    (ops : FloatOps) (times : Float32 → ℕ → Float32) (visit : List (ℕ × ℕ) → List (ℕ × ℕ))
    (next_uniform : ℕ → Float32 × ℕ) (s : Sampler) (logits : List Float32)
    → ((counts : List (ℕ × ℕ)) → Distinct counts → Distinct (visit counts))
    → (sample ops times visit next_uniform s logits).1 ≡ logits
unfolding sample sample_adjusted
sample_restores ops times visit next_uniform s logits once =
    let counts = recent_counts s (length logits) in
    elim (Bool-cases (penalties_enabled s.params)) [
      | inl h ↦
          rw (h, penalize_all_lem ops times s.params (visit counts) logits [])
            (restore-adjusted ops times s.params (visit counts) logits
              (once counts (Distinct-recent_counts s (length logits))))
      | inr h ↦ rw h (unfold restore in refl)
    ]
