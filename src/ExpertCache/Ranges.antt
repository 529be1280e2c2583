-- ===== src/ExpertCache/Ranges.antt =====
-- The range checks at the top of cache.cpp and the file slices of the experts.
use native.Mathlib.Nat.{le-div_iff_mul-le}
use palm_infra.Common.{
  ℕ, ◌+◌, ◌-◌, ◌*◌, ◌/◌, ◌≤◌, ◌<◌, ◌==◌, true, if◌then◌else◌, ℤ, pos, mul64_small, word_max,
  word_mod, ◌≡◌, ◌↔◌, ◌⊎◌, inl, inr, arith, ap, sym, refl, ◌∙◌, to_word,
}
use palm_infra.ExpertCache.Spec.{
  TensorSpec, data_file_offset, component_range_fits, components_fit_expert_stride,
}

-- The distance between the slices of consecutive experts.
abbrev pub stride_of : ℕ → ℕ → ℕ
stride_of expert_stride bytes = if expert_stride == 0 then bytes else expert_stride

-- A slice ends before the other begins.
abbrev pub IsApart : ℕ → ℕ → ℕ → ℕ → Type 0
IsApart a len b len' = (a + len ≤ b) ⊎ (b + len' ≤ a)

times_step : (e n s : ℕ) → e < n → e * s + s ≤ n * s
times_step e n s h = grind arith

times_mono : (e n s : ℕ) → e ≤ n → e * s ≤ n * s
times_mono e n s h = grind arith

quotient_bound : (n s : ℕ) → 0 < s → n ≤ word_max / s → n * s ≤ word_max
quotient_bound n s h k = (le-div_iff_mul-le h).0 k

bound_quotient : (n s : ℕ) → 0 < s → n * s ≤ word_max → n ≤ word_max / s
bound_quotient n s h k = (le-div_iff_mul-le h).1 k

module _ (offset bytes stride file_size : ℕ) where
  fits_pos :
      (n : ℕ)
      → 0 < bytes
      → component_range_fits offset bytes stride (pos n) file_size ≡ true
      → (0 < n) × (offset + (n - 1) * stride_of stride bytes + bytes ≤ file_size)
  unfolding component_range_fits
  fits_pos n b h = ground (
    arith,
    quotient_bound (n - 1) (stride_of stride bytes),
    mul64_small (n - 1) (stride_of stride bytes),
  )

  pos_fits :
      (n : ℕ)
      → file_size < word_mod
      → 0 < n
      → offset + (n - 1) * stride_of stride bytes + bytes ≤ file_size
      → component_range_fits offset bytes stride (pos n) file_size ≡ true
  unfolding component_range_fits
  pos_fits n w h k = ground (
    arith,
    bound_quotient (n - 1) (stride_of stride bytes),
    mul64_small (n - 1) (stride_of stride bytes),
  )

  -- The check reads the count as the word it is converted to.
  by_word :
      (n : ℤ)
      → component_range_fits offset bytes stride n file_size
        ≡ component_range_fits offset bytes stride (pos (to_word n)) file_size
  unfolding component_range_fits
  by_word n = refl

  last_fits :
      (n : ℤ)
      → 0 < bytes
      → component_range_fits offset bytes stride n file_size ≡ true
      → (0 < to_word n) × (offset + (to_word n - 1) * stride_of stride bytes + bytes ≤ file_size)
  last_fits n b h = fits_pos (to_word n) b (sym (by_word n) ∙ h)

  fits_last :
      (n : ℤ)
      → file_size < word_mod
      → 0 < to_word n
      → offset + (to_word n - 1) * stride_of stride bytes + bytes ≤ file_size
      → component_range_fits offset bytes stride n file_size ≡ true
  fits_last n w h k = by_word n ∙ pos_fits (to_word n) w h k

no_component :
    (offset bytes stride : ℕ) (n : ℤ) (file_size : ℕ)
    → bytes ≡ 0
    → component_range_fits offset bytes stride n file_size ≡ true
unfolding component_range_fits
no_component offset bytes stride n file_size z = ground arith

-- The stride check in terms of sums.
abbrev StrideBounds : TensorSpec → Type 0
StrideBounds s =
    (s.data_bytes ≤ s.expert_stride)
    × (s.scales_bytes ≤ s.expert_stride)
    × (((s.data_offset + s.data_bytes ≤ s.scales_offset)
          × (s.scales_offset + s.scales_bytes ≤ s.data_offset + s.expert_stride))
        ⊎ ((s.scales_offset + s.scales_bytes ≤ s.data_offset)
            × (s.data_offset + s.data_bytes ≤ s.scales_offset + s.expert_stride)))

stride_bounds :
    (s : TensorSpec)
    → components_fit_expert_stride s ≡ true
    → 0 < s.expert_stride
    → 0 < s.scales_bytes
    → StrideBounds s
unfolding components_fit_expert_stride
stride_bounds s h k b = ground arith

-- In a file whose size is a 64-bit word, with the number of experts converted to a 64-bit word, as the
-- check converts it (a negative number wraps): the check of a component accepts exactly the
-- descriptors that have no such component, or at least one expert and the slice of every expert
-- below that number inside the file. The slice ends are exact: where the source's arithmetic would
-- wrap, the check refuses.
pub component_range_fits_iff :
    (offset bytes stride : ℕ) (n : ℤ) (file_size : ℕ)
    → file_size < word_mod
    → (component_range_fits offset bytes stride n file_size ≡ true) ↔ (
        (bytes ≡ 0)
        ⊎ ((0 < to_word n)
            × ((e : ℕ) → e < to_word n → offset + e * stride_of stride bytes + bytes ≤ file_size)))
component_range_fits_iff offset bytes stride n file_size w = (forward, backward)
  where
    count : ℕ
    count = to_word n

    AllFit : Type 0
    AllFit = (e : ℕ) → e < count → offset + e * stride_of stride bytes + bytes ≤ file_size

    every :
        (0 < count) × (offset + (count - 1) * stride_of stride bytes + bytes ≤ file_size) → AllFit
    every l e h = omega (arith, times_mono e (count - 1) (stride_of stride bytes) (omega arith))

    decide : (bytes ≡ 0) ⊎ (0 < bytes)
    decide = omega arith

    forward :
        component_range_fits offset bytes stride n file_size ≡ true
        → (bytes ≡ 0) ⊎ ((0 < count) × AllFit)
    forward h = elim decide [
      | inl z ↦ inl z
      | inr p ↦ let l = last_fits offset bytes stride file_size n p h in inr (l.0, every l)
    ]

    backward :
        (bytes ≡ 0) ⊎ ((0 < count) × AllFit)
        → component_range_fits offset bytes stride n file_size ≡ true
    backward (inl z) = no_component offset bytes stride n file_size z
    backward (inr (p, every_fits)) =
        fits_last offset bytes stride file_size n w p (every_fits (count - 1) (omega arith))

-- For an accepted data component the offset that a read starts from is the exact one, without
-- wrap-around, for every expert, and the read ends inside the file.
pub data_file_offset_exact :
    (s : TensorSpec) (n file_size e : ℕ)
    → file_size < word_mod
    → 0 < s.data_bytes
    → component_range_fits s.data_offset s.data_bytes s.expert_stride (pos n) file_size ≡ true
    → e < n
    → (data_file_offset s (pos e) ≡ s.data_offset + e * stride_of s.expert_stride s.data_bytes)
      × (data_file_offset s (pos e) + s.data_bytes ≤ file_size)
unfolding data_file_offset
data_file_offset_exact s n file_size e w b h k =
    let stride = stride_of s.expert_stride s.data_bytes in
    let l = last_fits s.data_offset s.data_bytes s.expert_stride file_size (pos n) b h in
    let m = times_mono e (n - 1) stride (omega arith) in
    let x = mul64_small e stride (omega arith) in (omega arith, omega arith)

-- Of a descriptor whose components pass the stride check, with a stride: the data slices of two
-- experts are apart, so are their scale slices, and every data slice is apart from every scale slice.
pub components_IsApart :
    (s : TensorSpec) (e f : ℕ)
    → components_fit_expert_stride s ≡ true
    → 0 < s.expert_stride
    → 0 < s.scales_bytes
    → let data_at = λ (i : ℕ). s.data_offset + i * s.expert_stride in
      let scales_at = λ (i : ℕ). s.scales_offset + i * s.expert_stride in
      ((e ≡ f) ⊎ IsApart (data_at e) s.data_bytes (data_at f) s.data_bytes)
      × ((e ≡ f) ⊎ IsApart (scales_at e) s.scales_bytes (scales_at f) s.scales_bytes)
      × IsApart (data_at e) s.data_bytes (scales_at f) s.scales_bytes
components_IsApart s e f h k b = elim order [
  | inl lt ↦
      let m = times_step e f s.expert_stride lt in
      (inr (omega (arith, bounds)), inr (omega (arith, bounds)), omega (arith, bounds))
  | inr (inl lt) ↦
      let m = times_step f e s.expert_stride lt in
      (inr (omega (arith, bounds)), inr (omega (arith, bounds)), omega (arith, bounds))
  | inr (inr same) ↦
      let m = ap (λ (t : ℕ). t * s.expert_stride) same in
      (inl same, inl same, omega (arith, bounds))
]
  where
    order : (e < f) ⊎ ((f < e) ⊎ (e ≡ f))
    order = omega arith

    bounds : StrideBounds s
    bounds = stride_bounds s h k b
