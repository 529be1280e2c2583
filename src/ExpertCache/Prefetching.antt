-- ===== src/ExpertCache/Prefetching.antt =====
-- The advice on prefetching of cache.cpp: counts, pairs that fit, and the queue of tasks.
use palm_infra.Common.{
  ℕ, zero, suc, ◌*◌, ◌/◌, ◌≤◌, ◌<◌, ltb, ◌==◌, min, max, Bool, true, false, ◌&&◌, some, [], ◌∷◌,
  length, ◌≡◌, ap, ◌∙◌, arith, Bool-cases, inl, inr, ◌⊎◌, length-append,
}
use native.Mathlib.Nat.{div-add-mod}
use palm_infra.ExpertCache.Spec.{TensorSource, expert_pair_bytes}
use palm_infra.ExpertCache.State.{Cache, Policy}
use palm_infra.ExpertCache.Eviction.{capacity_for}
use palm_infra.ExpertCache.Advice.{
  drops_rank, narrow, recommended_prefetch_count, can_prefetch_pairs, submit_cross_layer_task,
}

mul-le : (k a b : ℕ) → a ≤ b → k * a ≤ k * b
mul-le k a b h = grind arith

module _ (poor : ℕ → ℕ → Bool) (p : Policy) where
  narrow_bounds :
      (minimum n : ℕ)
      → minimum ≤ n
      → (minimum ≤ narrow poor p minimum n)
        × (narrow poor p minimum n ≤ n)
        × ((rank : ℕ) → narrow poor p minimum n ≤ rank → rank < n → drops_rank poor p rank ≡ true)
        × ((rank : ℕ)
            → suc rank ≡ narrow poor p minimum n
            → (suc rank ≡ minimum) ⊎ (drops_rank poor p rank ≡ false))
  unfolding narrow
  narrow_bounds minimum zero h =
      (h, omega arith, λ rank l k. absurd (omega arith), λ rank l. absurd (omega arith))
  narrow_bounds minimum (suc n) h = elim (Bool-cases (ltb minimum (suc n) && drops_rank poor p n)) [
    | inl dropped ↦
        let (low, high, poorer, last) = narrow_bounds minimum n (ground (arith, dropped)) in
        rw (narrow, dropped)
          (
            low,
            omega (arith, high),
            λ rank l k. poor_at rank poorer l (omega arith) (ground (arith, dropped)),
            last,
          )
    | inr kept ↦
        rw (narrow, kept)
          (
            h,
            omega arith,
            λ rank l k. absurd (omega arith),
            λ rank l. stops_at rank (omega (arith, l)) kept,
          )
  ]
    where
      poor_at :
          (rank : ℕ)
          → ((r : ℕ) → narrow poor p minimum n ≤ r → r < n → drops_rank poor p r ≡ true)
          → narrow poor p minimum n ≤ rank
          → (rank < n) ⊎ (rank ≡ n)
          → drops_rank poor p n ≡ true
          → drops_rank poor p rank ≡ true
      poor_at rank below l (inl lt) d = below rank l lt
      poor_at rank below l (inr same) d = ap (drops_rank poor p) same ∙ d

      stops_at :
          (rank : ℕ)
          → rank ≡ n
          → (ltb minimum (suc n) && drops_rank poor p n) ≡ false
          → (suc rank ≡ minimum) ⊎ (drops_rank poor p rank ≡ false)
      stops_at rank same k = elim (Bool-cases (drops_rank poor p n)) [
        | inl d ↦ inl (ground (arith, d, k, same, h))
        | inr d ↦ inr (ap (drops_rank poor p) same ∙ d)
      ]

  -- For a positive count: the recommendation is at most the count and at least the smallest of three,
  -- the count, and half the count or one; each rank that it cuts off has 128 samples or more with a
  -- poor hit rate; and it stops at that least number or at a rank that it may not cut off.
  pub recommended_prefetch_count_bounds :
      (n : ℕ)
      → 0 < n
      → let m = recommended_prefetch_count poor p n in
        (min (max 1 (n / 2)) 3 ≤ m)
        × (m ≤ n)
        × ((rank : ℕ) → m ≤ rank → rank < n → drops_rank poor p rank ≡ true)
        × ((rank : ℕ)
            → suc rank ≡ m
            → (suc rank ≡ min (max 1 (n / 2)) 3) ⊎ (drops_rank poor p rank ≡ false))
  unfolding recommended_prefetch_count
  recommended_prefetch_count_bounds n h =
      let positive : n == 0 ≡ false = ground arith in
      rw (recommended_prefetch_count, positive)
        (narrow_bounds (min (max 1 (n / 2)) 3) n (omega arith))

-- A pair count that passes fits: the bytes of so many pairs are within the capacity.
pub can_prefetch_pairs_fits :
    (c : Cache) (gate_up down : TensorSource) (pairs bytes : ℕ)
    → can_prefetch_pairs c gate_up down pairs ≡ true
    → expert_pair_bytes c.config.page_size gate_up down c.config.read_alignment ≡ some bytes
    → (0 < pairs) × (pairs * bytes ≤ capacity_for c.config gate_up.spec.layer)
unfolding can_prefetch_pairs
can_prefetch_pairs_fits c gate_up down pairs bytes h k =
    let fits : (0 < pairs) × (bytes ≤ capacity_for c.config gate_up.spec.layer / pairs) =
      ground (arith, h, k) in
    let whole = div-add-mod (capacity_for c.config gate_up.spec.layer) pairs in
    let scaled = mul-le pairs bytes _ fits.1 in (fits.0, omega (arith, whole, scaled))

-- A submission to a queue of at most two tasks leaves at most two.
pub submit_cross_layer_task_bound :
    (c : Cache) (task : ℕ)
    → length c.queues.cross_layer_tasks ≤ 2
    → length (submit_cross_layer_task c task).0.queues.cross_layer_tasks ≤ 2
unfolding submit_cross_layer_task
submit_cross_layer_task_bound c task h =
    ground (arith, length-append c.queues.cross_layer_tasks (task ∷ []))
