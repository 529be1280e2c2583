-- ===== src/ExpertCache/Store/Configuring.antt =====
-- The configuration calls, add_source and borrow_resident_layer of the cache: what becomes of the
-- invariant. Before any entry is resident the capacities may change.
use palm_infra.Common.{
  ℕ, ◌-◌, ◌≤◌, ◌==◌, Bool, true, false, not, ◌&&◌, ◌||◌, some, List, [], ◌∷◌, ℤ, pos, int_lt,
  to_word, ◌≡◌, refl, ◌∙◌, arith, word_max, Bool-cases, Option-cases, inl, inr,
}
use palm_infra.ExpertCache.Spec.{TensorSource}
use palm_infra.ExpertCache.State.{
  Entry, Cache, Config, LayerLayout, LayerMap, no_keys, value_or, layer_capacity_bytes_locked,
  valid_pair,
}
use palm_infra.ExpertCache.Eviction.{used_for, capacity_for}
use palm_infra.ExpertCache.Acquire.{pin}
use palm_infra.ExpertCache.Advice.{pin_all, borrow_resident_layer, ready_layer, natural}
use palm_infra.ExpertCache.Configure.{
  Quota, is_empty, sort_layers, baseline, share_out, quota_map, configure_shallow_favoring,
  set_global_capacity_pool, set_buffer_reuse_capacity,
}
use palm_infra.ExpertCache.Quotas.{share_out-baseline}
use palm_infra.ExpertCache.Store.Bounds.{IsSized}
use palm_infra.ExpertCache.Store.Admission.{IsWellFormed}
use palm_infra.ExpertCache.Store.Progressing.{pin-Held}
use palm_infra.ExpertCache.Store.Sharing.{AreDistinct, shares-IsSized, quota_map-IsSized}

-- With nothing resident, any configuration whose quotas sum up to a word will do.
module _ (c : Cache) (config : Config) (nothing : c.store.entries ≡ []) (w : IsWellFormed c)
    (sized : IsSized config) where
  none_used : (l : ℤ) → used_for config c.store l ≡ 0
  unfolding used_for
  none_used l =
      let total : c.store.resident_bytes ≡ 0 = w.consistent.total ∙ rw nothing refl in
      let per_layer : value_or 0 (c.store.layer_resident_bytes l) ≡ 0 =
        w.consistent.layer_total l ∙ rw nothing refl in
      ground (arith, total, per_layer)

  pub reconfigured-IsWellFormed : IsWellFormed (record c { config = config })
  reconfigured-IsWellFormed = record {
    consistent = w.consistent;
    bounded = record {
      within = λ l. omega (arith, none_used l);
      known = rw nothing tt;
      quotas = sized;
    };
  }

-- What holds of the fields by their types, outside Apple platforms: layers_ is a set, the capacity is a
-- word, and no bytes are reserved for buffers.
abbrev pub IsPlain : Config → Type 0
IsPlain c = AreDistinct c.layers × (c.capacity_bytes ≤ word_max) × (c.buffer_reserve_bytes ≡ 0)

is_empty_lem : (es : List Entry) → is_empty es ≡ true → es ≡ []
is_empty_lem [] h = refl
is_empty_lem (e ∷ es) h = ground (arith, h)

module _ (c : Cache) (w : IsWellFormed c) where
  -- With other layouts and sources.
  pub described-IsWellFormed :
      (layouts : LayerMap LayerLayout) (sources : List TensorSource)
      → IsWellFormed
          (record c { config = record c.config { layer_layouts = layouts; sources = sources } })
  unfolding used_for capacity_for layer_capacity_bytes_locked
  described-IsWellFormed layouts sources = record {
    consistent = w.consistent;
    bounded = record {
      within = λ l. w.bounded.within l;
      known = w.bounded.known;
      quotas = w.bounded.quotas;
    };
  }

  cleared_config-IsWellFormed :
      (pool : Bool)
      → is_empty c.store.entries ≡ true
      → IsWellFormed (record c {
        config = record c.config { layer_capacity_bytes = no_keys; global_capacity_pool = pool };
      })
  cleared_config-IsWellFormed pool nothing =
      let config : Config = record c.config {
        layer_capacity_bytes = no_keys;
        global_capacity_pool = pool;
      } in
      reconfigured-IsWellFormed c config (is_empty_lem c.store.entries nothing) w
        (shares-IsSized config refl)

  pub set_global_capacity_pool-IsWellFormed :
      (enabled : Bool) → IsWellFormed (set_global_capacity_pool c enabled).0
  unfolding set_global_capacity_pool layer_capacity_bytes_locked
  set_global_capacity_pool-IsWellFormed true = elim (Bool-cases (not (is_empty c.store.entries))) [
    | inl late ↦ rw (set_global_capacity_pool, late) w
    | inr early ↦
        rw (set_global_capacity_pool, early)
          (cleared_config-IsWellFormed true (ground (arith, early)))
  ]
  set_global_capacity_pool-IsWellFormed false =
      elim (Bool-cases (
        not (is_empty c.store.entries)
        || (c.config.buffer_pool || not (c.config.read_alignment == 0)))) [
          | inl late ↦ rw (set_global_capacity_pool, late) w
          | inr early ↦
              rw (set_global_capacity_pool, early)
                (reconfigured-IsWellFormed c _
                  (is_empty_lem c.store.entries (ground (arith, early))) w w.bounded.quotas)
        ]

  pub set_buffer_reuse_capacity-IsWellFormed :
      (bytes : ℕ) → IsPlain c.config → IsWellFormed (set_buffer_reuse_capacity c bytes).0
  unfolding set_buffer_reuse_capacity layer_capacity_bytes_locked
  set_buffer_reuse_capacity-IsWellFormed bytes plain =
      elim (Bool-cases (
        is_empty c.store.entries
        && is_empty c.queues.io_jobs
        && is_empty c.queues.low_priority_io_jobs
        && bytes == 0)) [
          | inl idle ↦
              rw (set_buffer_reuse_capacity, idle)
                (reconfigured-IsWellFormed c _ (is_empty_lem c.store.entries (ground (arith, idle)))
                  w (rw plain.2 at w.bounded.quotas))
          | inr busy ↦ rw (set_buffer_reuse_capacity, busy) w
        ]

  pub configure_shallow_favoring-IsWellFormed :
      (shallow_layers : ℤ)
      → IsPlain c.config
      → IsWellFormed (configure_shallow_favoring c shallow_layers).0
  unfolding configure_shallow_favoring layer_capacity_bytes_locked
  configure_shallow_favoring-IsWellFormed shallow_layers plain =
      elim (Bool-cases (not (is_empty c.store.entries))) [
        | inl late ↦ rw (configure_shallow_favoring, late) w
        | inr early ↦ elim (Bool-cases c.config.global_capacity_pool) [
          | inl pool ↦
              rw (configure_shallow_favoring, early, pool)
                (reconfigured-IsWellFormed c _
                  (is_empty_lem c.store.entries (ground (arith, early))) w w.bounded.quotas)
          | inr split ↦
              elim (Bool-cases (not (int_lt (pos 0) shallow_layers) || is_empty c.config.layers)) [
                | inl even ↦
                    rw (configure_shallow_favoring, early, split, even)
                      (cleared_config-IsWellFormed false (ground (arith, early)))
                | inr uneven ↦
                    elim (Option-cases (
                      baseline c.config.layer_layouts c.config.capacity_bytes 0
                        (sort_layers c.config.layers))) [
                          | inl failed ↦
                              rw (configure_shallow_favoring, early, split, uneven, failed)
                                (cleared_config-IsWellFormed c.config.global_capacity_pool
                                  (ground (arith, early)))
                          | inr ((quotas, minimum), based) ↦
                              rw (configure_shallow_favoring, early, split, uneven, based)
                                (reconfigured-IsWellFormed c _
                                  (is_empty_lem c.store.entries (ground (arith, early))) w
                                  (shared quotas minimum based))
                        ]
              ]
        ]
      ]
    where
      shared :
          (quotas : List Quota) (minimum : ℕ)
          → baseline c.config.layer_layouts c.config.capacity_bytes 0 (sort_layers c.config.layers)
            ≡ some (quotas, minimum)
          → IsSized (record c.config {
            layer_capacity_bytes =
                quota_map
                  (share_out (to_word shallow_layers) (c.config.capacity_bytes - minimum) quotas);
            global_capacity_pool = false;
          })
      shared quotas minimum based =
          let r =
            share_out-baseline c.config.layer_layouts c.config.capacity_bytes
              (to_word shallow_layers) (sort_layers c.config.layers) quotas minimum based in
          quota_map-IsSized (record c.config { global_capacity_pool = false }) _ _ plain.0 r.0
            (omega (arith, r.2, plain.1))

pub pin_all-IsWellFormed : (c : Cache) (ps : List ℕ) → IsWellFormed c → IsWellFormed (pin_all c ps)
unfolding pin_all
pin_all-IsWellFormed c [] w = w
pin_all-IsWellFormed c (p ∷ ps) w = pin_all-IsWellFormed (pin c p) ps (pin-Held c p w).well_formed

pub borrow_resident_layer-IsWellFormed :
    (c : Cache) (gate_up down : TensorSource)
    → IsWellFormed c
    → IsWellFormed (borrow_resident_layer c gate_up down).0
unfolding borrow_resident_layer
borrow_resident_layer-IsWellFormed c gate_up down w =
    elim (Bool-cases
      (not c.config.fully_resident || not (valid_pair c.config gate_up down (pos 0)))) [
        | inl refused ↦ rw (borrow_resident_layer, refused) w
        | inr served ↦
            elim (Option-cases (ready_layer c gate_up down 0 (natural gate_up.spec.num_experts))) [
              | inl missing ↦ rw (borrow_resident_layer, served, missing) w
              | inr (pointers, ready) ↦
                  rw (borrow_resident_layer, served, ready) (pin_all-IsWellFormed c pointers w)
            ]
      ]
