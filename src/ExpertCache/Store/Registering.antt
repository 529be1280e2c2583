-- ===== src/ExpertCache/Store/Registering.antt =====
-- add_source of cache.cpp: what becomes of the invariant.
use palm_infra.Common.{
  ℕ, ◌-◌, ltb, ◌==◌, true, not, ◌&&◌, ◌||◌, List, [], ◌∷◌, ℤ, pos, int_eq, ◌≡◌, ◌⊎◌, if◌then◌else◌,
  word_max, Bool-cases, Option-cases, inl, inr,
}
use palm_infra.ExpertCache.Spec.{TensorSpec, TensorSource}
use palm_infra.ExpertCache.State.{Cache, Config, LayerMap, LayerLayout, no_keys, value_or}
use palm_infra.ExpertCache.Register.{
  calibration_fits, shape_fits, checked_bytes, is_supported, gguf_fits, nvfp4_fits, int4_fits,
  quantized_fits, source_named, register, add_source, empty_layout,
}
use palm_infra.ExpertCache.Store.Bounds.{has_layer}
use palm_infra.ExpertCache.Store.Admission.{IsWellFormed}
use palm_infra.ExpertCache.Store.Sharing.{shares-IsSized}
use palm_infra.ExpertCache.Store.Configuring.{described-IsWellFormed, reconfigured-IsWellFormed}

-- A layer that is registered, or any layer as long as nothing is resident and no quotas are set.
abbrev pub IsOpenTo : Cache → ℤ → Type 0
IsOpenTo c layer =
    (has_layer layer c.config.layers ≡ true)
    ⊎ ((c.store.entries ≡ []) × (c.config.layer_capacity_bytes ≡ no_keys))

module _ (c : Cache) (w : IsWellFormed c) (address : ℕ) (s : TensorSpec)
    (h : IsOpenTo c s.layer) where
  register-IsWellFormed :
      (bytes : ℕ) → IsWellFormed (record c { config = (register c.config address s bytes).0 })
  unfolding register
  register-IsWellFormed bytes =
      let layout = value_or empty_layout (c.config.layer_layouts s.layer) in
      elim (Bool-cases (
        not (int_eq layout.num_experts (pos 0)) && not (int_eq layout.num_experts s.num_experts))) [
          | inl other ↦ rw (register, other) (described-IsWellFormed c w _ c.config.sources)
          | inr same ↦ elim (Bool-cases (ltb (word_max - layout.pair_bytes) bytes)) [
            | inl large ↦ rw (register, same, large) (described-IsWellFormed c w _ c.config.sources)
            | inr fits ↦ elim (Option-cases (source_named c.config.sources s.weight_ref)) [
              | inl new ↦ rw (register, same, fits, new) (added _ _ h)
              | inr (t, present) ↦
                  rw (register, same, fits, present) (described-IsWellFormed c w _ c.config.sources)
            ]
          ]
        ]
    where
      grown : List ℤ
      grown =
          if has_layer s.layer c.config.layers then c.config.layers else s.layer ∷ c.config.layers

      added :
          (layouts : LayerMap LayerLayout) (sources : List TensorSource)
          → IsOpenTo c s.layer
          → IsWellFormed (record c {
            config = record c.config { layers = grown; layer_layouts = layouts; sources = sources };
          })
      added layouts sources (inl there) = rw there (described-IsWellFormed c w layouts sources)
      added layouts sources (inr (nothing, unset)) =
          let config : Config = record c.config {
            layers = grown;
            layer_layouts = layouts;
            sources = sources;
          } in
          reconfigured-IsWellFormed c config nothing w (shares-IsSized config unset)

  pub add_source-IsWellFormed :
      IsWellFormed (record c { config = (add_source c.config address s).0 })
  unfolding add_source
  add_source-IsWellFormed =
      elim (Bool-cases (c.config.buffer_pool || not (c.config.read_alignment == 0))) [
        | inl frozen ↦ rw (add_source, frozen) w
        | inr free ↦ elim (Bool-cases (not (calibration_fits s) || not (shape_fits c.config s))) [
          | inl bad ↦ rw (add_source, free, bad) w
          | inr good ↦ elim (Option-cases (checked_bytes c.config s)) [
            | inl misfit ↦ rw (add_source, free, good, misfit) w
            | inr (bytes, sized) ↦
                elim (Bool-cases (
                  is_supported s.precision
                  && gguf_fits s
                  && nvfp4_fits s
                  && int4_fits s
                  && quantized_fits s)) [
                    | inl supported ↦
                        rw (add_source, free, good, sized, supported) (register-IsWellFormed bytes)
                    | inr other ↦ rw (add_source, free, good, sized, other) w
                  ]
          ]
        ]
      ]
