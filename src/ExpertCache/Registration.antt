-- ===== src/ExpertCache/Registration.antt =====
-- add_source of cache.cpp: accepted and refused descriptors.
use palm_infra.Common.{
  ℕ, ◌-◌, ◌≤◌, ltb, ◌==◌, Bool, true, false, not, ◌&&◌, ◌||◌, if◌then◌else◌, none, some, List, ◌∷◌,
  ℤ, pos, int_eq, ◌≡◌, refl, arith, Bool-cases, Option-cases, inl, inr, word_max, any_of,
  int_eq_refl,
}
use palm_infra.ExpertCache.Spec.{TensorSpec, component_range_fits}
use palm_infra.ExpertCache.State.{Config, value_or}
use palm_infra.ExpertCache.Register.{
  calibration_fits, shape_fits, checked_bytes, is_supported, gguf_fits, nvfp4_fits, int4_fits,
  quantized_fits, source_named, register, add_source, empty_layout,
}
use palm_infra.ExpertCache.Store.Bounds.{has_layer}

-- What a descriptor must satisfy to be registered.
abbrev pub IsRegistered : Config → TensorSpec → Config → Type 0
IsRegistered c s c' =
    (source_named c.sources s.weight_ref ≡ none)
    × (has_layer s.layer c'.layers ≡ true)
    × (component_range_fits s.data_offset s.data_bytes s.expert_stride s.num_experts c.file_size
        ≡ true)
    × (component_range_fits s.scales_offset s.scales_bytes s.expert_stride s.num_experts c.file_size
        ≡ true)
    × ((value_or empty_layout (c'.layer_layouts s.layer)).num_experts ≡ s.num_experts)
    × ((value_or empty_layout (c'.layer_layouts s.layer)).pair_bytes ≤ word_max)

-- What a refusal leaves as it was.
abbrev pub IsRefused : Config → Config → Type 0
IsRefused c c' =
    (c'.sources ≡ c.sources)
    × (c'.layers ≡ c.layers)
    × (c'.layer_capacity_bytes ≡ c.layer_capacity_bytes)

abbrev pub IsAnswer : Config → TensorSpec → Config × Bool → Type 0
IsAnswer c s (c', true) = IsRegistered c s c'
IsAnswer c s (c', false) = IsRefused c c'

has_layer_added :
    (l : ℤ) (ls : List ℤ) → has_layer l (if any_of (λ k. int_eq k l) ls then ls else l ∷ ls) ≡ true
has_layer_added l ls = elim (Bool-cases (any_of (λ k. int_eq k l) ls)) [
  | inl there ↦ rw there there
  | inr new ↦ rw new (ground (arith, int_eq_refl l))
]

register-IsAnswer :
    (c : Config) (address : ℕ) (s : TensorSpec) (bytes : ℕ)
    → component_range_fits s.data_offset s.data_bytes s.expert_stride s.num_experts c.file_size
      ≡ true
    → component_range_fits s.scales_offset s.scales_bytes s.expert_stride s.num_experts c.file_size
      ≡ true
    → (value_or empty_layout (c.layer_layouts s.layer)).pair_bytes ≤ word_max
    → IsAnswer c s (register c address s bytes)
unfolding register
register-IsAnswer c address s bytes slices scales low =
    let layout = value_or empty_layout (c.layer_layouts s.layer) in
    elim (Bool-cases
      (not (int_eq layout.num_experts (pos 0)) && not (int_eq layout.num_experts s.num_experts))) [
        | inl other ↦ rw (register, other) (refl, refl, refl)
        | inr same ↦ elim (Bool-cases (ltb (word_max - layout.pair_bytes) bytes)) [
          | inl large ↦ rw (register, same, large) (refl, refl, refl)
          | inr fits ↦ elim (Option-cases (source_named c.sources s.weight_ref)) [
            | inl new ↦
                rw (register, same, fits, new)
                  (
                    new,
                    has_layer_added s.layer c.layers,
                    slices,
                    scales,
                    rw (int_eq_refl s.layer) refl,
                    rw (int_eq_refl s.layer) (ground (arith, fits, low)),
                  )
            | inr (t, present) ↦ rw (register, same, fits, present) (refl, refl, refl)
          ]
        ]
      ]

checked_ranges :
    (c : Config) (s : TensorSpec) (bytes : ℕ)
    → checked_bytes c s ≡ some bytes
    → (component_range_fits s.data_offset s.data_bytes s.expert_stride s.num_experts c.file_size
        ≡ true)
      × (component_range_fits s.scales_offset s.scales_bytes s.expert_stride s.num_experts
            c.file_size
          ≡ true)
unfolding checked_bytes
checked_ranges c s bytes h = (ground (arith, h), ground (arith, h))

-- An accepted descriptor had a new name, its components fit the file for every expert, its layer is
-- registered with its expert count, and the layer's pair size is still a word. A refused one changes
-- no source, no layer and no quota.
pub add_source-IsAnswer :
    (c : Config) (address : ℕ) (s : TensorSpec)
    → (value_or empty_layout (c.layer_layouts s.layer)).pair_bytes ≤ word_max
    → IsAnswer c s (add_source c address s)
unfolding add_source
add_source-IsAnswer c address s low =
    elim (Bool-cases (c.buffer_pool || not (c.read_alignment == 0))) [
      | inl frozen ↦ rw (add_source, frozen) (refl, refl, refl)
      | inr free ↦ elim (Bool-cases (not (calibration_fits s) || not (shape_fits c s))) [
        | inl bad ↦ rw (add_source, free, bad) (refl, refl, refl)
        | inr good ↦ elim (Option-cases (checked_bytes c s)) [
          | inl misfit ↦ rw (add_source, free, good, misfit) (refl, refl, refl)
          | inr (bytes, sized) ↦
              let (slices, scales) = checked_ranges c s bytes sized in
              elim (Bool-cases (
                is_supported s.precision
                && gguf_fits s
                && nvfp4_fits s
                && int4_fits s
                && quantized_fits s)) [
                  | inl supported ↦
                      rw (add_source, free, good, sized, supported)
                        (register-IsAnswer c address s bytes slices scales low)
                  | inr other ↦ rw (add_source, free, good, sized, other) (refl, refl, refl)
                ]
        ]
      ]
    ]
