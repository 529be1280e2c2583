-- ===== src/BufferPool/Buckets.antt =====
-- The buckets of the buffer pool.
use palm_infra.Common.{
  ℕ, zero, suc, ◌+◌, ◌*◌, ◌/◌, ◌≤◌, ◌<◌, ltb, none, some, add64, mul64, mul64_small, max, ◌≡◌, refl,
  ap, ◌∙◌, arith, Bool-cases, inl, inr, ◌⊎◌,
}
use palm_infra.BufferPool.{grow, align_down, round_up, min_bucket}

-- p doubled n times.
abbrev doubled : ℕ → ℕ → ℕ
doubled zero p = p
doubled (suc n) p = doubled n (p * 2)

doubled_grows : (n p : ℕ) → p ≤ doubled n p
doubled_grows zero p = omega arith
doubled_grows (suc n) p = omega (arith, doubled_grows n (p * 2))

-- 2 to the 63.
abbrev pub half_word : ℕ
half_word = 9223372036854775808

grow_lem :
    (n p bytes : ℕ)
    → doubled n p ≡ half_word
    → bytes ≤ half_word
    → (q : ℕ) × (grow (suc n) p bytes ≡ some q)
      × (bytes ≤ q)
      × (q ≤ half_word)
      × ((q ≡ p) ⊎ (q < bytes + bytes))
unfolding grow
grow_lem zero p bytes d h = elim (Bool-cases (ltb p bytes)) [
  | inl below ↦ absurd (ground (arith, below, d, h))
  | inr there ↦ rw there (p, refl, ground (arith, there), omega (arith, d), inl refl)
]
grow_lem (suc n) p bytes d h = elim (Bool-cases (ltb p bytes)) [
  | inl below ↦
      let low : p < bytes = ground (arith, below) in
      let twice : mul64 p 2 ≡ p * 2 = mul64_small p 2 (omega (arith, low, h)) in
      let (q, found, holds, bound, tight) = grow_lem n (p * 2) bytes d h in
      rw below (
        q,
        ap (λ m. grow (suc n) m bytes) twice ∙ found,
        holds,
        bound,
        inr (omega (arith, tight, low)),
      )
  | inr there ↦
      rw there (p, refl, ground (arith, there), omega (arith, d, doubled_grows n (p * 2)), inl refl)
]

-- The size that the loop is given.
abbrev aligned : ℕ → ℕ
aligned bytes = align_down (add64 (max bytes min_bucket) 63)

aligned_bounds :
    (bytes : ℕ)
    → bytes ≤ half_word
    → (bytes ≤ aligned bytes)
      × (aligned bytes ≤ half_word)
      × (aligned bytes ≡ (max bytes min_bucket + 63) / 64 * 64)
unfolding align_down
aligned_bounds bytes h = (omega arith, omega arith, omega arith)

-- A request of at most 2 to the 63 bytes gets a bucket: the loop ends, the bucket holds the request,
-- it is at most 2 to the 63, and it is the smallest bucket or less than twice the aligned request:
-- the larger of the request and that bucket, and up to 63 bytes more, cut down to a multiple of 64.
pub round_up_lem :
    (bytes : ℕ)
    → bytes ≤ half_word
    → (q : ℕ) × (round_up bytes ≡ some q)
      × (bytes ≤ q)
      × (q ≤ half_word)
      × ((q ≡ min_bucket) ⊎ (q < 2 * ((max bytes min_bucket + 63) / 64 * 64)))
unfolding round_up
round_up_lem bytes h =
    let (low, high, near) = aligned_bounds bytes h in
    let (q, found, holds, bound, tight) = grow_lem 53 min_bucket (aligned bytes) refl high in
    (q, found, omega (arith, low, holds), bound, omega (arith, tight, near))

-- The sizes that the loop tries: those that doubling brings to 2 to the 63, and the 0 after it.
abbrev IsTried : ℕ → Type 0
IsTried p = (p ≡ 0) ⊎ ((n : ℕ) × (doubled n p ≡ half_word))

IsTried-mul64 : (p : ℕ) → IsTried p → IsTried (mul64 p 2)
IsTried-mul64 p (inl z) = inl (ap (λ m. mul64 m 2) z)
IsTried-mul64 p (inr (zero, d)) = inl (ap (λ m. mul64 m 2) d)
IsTried-mul64 p (inr (suc n, d)) =
    let twice : mul64 p 2 ≡ p * 2 = mul64_small p 2 (omega (arith, d, doubled_grows n (p * 2))) in
    inr (n, ap (doubled n) twice ∙ d)

IsTried-bound : (p : ℕ) → IsTried p → p ≤ half_word
IsTried-bound p (inl z) = omega (arith, z)
IsTried-bound p (inr (n, d)) = omega (arith, d, doubled_grows n p)

grow_never : (fuel p bytes : ℕ) → IsTried p → half_word < bytes → grow fuel p bytes ≡ none
unfolding grow
grow_never zero p bytes t h = refl
grow_never (suc fuel) p bytes t h =
    ground (arith, IsTried-bound p t, grow_never fuel (mul64 p 2) bytes (IsTried-mul64 p t) h)

-- Past 2 to the 63 bytes, as long as the alignment does not wrap: no number of rounds ends the loop
-- of round_up, since the size it doubles becomes 0.
pub grow-align_down_never :
    (fuel bytes : ℕ)
    → half_word < bytes
    → bytes ≤ 18446744073709551552
    → grow fuel min_bucket (align_down (add64 (max bytes min_bucket) 63)) ≡ none
unfolding align_down
grow-align_down_never fuel bytes h k = grow_never fuel min_bucket _ (inr (53, refl)) (omega arith)
