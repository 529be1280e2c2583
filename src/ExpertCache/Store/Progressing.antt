-- ===== src/ExpertCache/Store/Progressing.antt =====
-- acquire_impl of cache.cpp up to its last wait: what becomes of the resident set and of leases.
use palm_infra.Common.{
  ℕ, ◌+◌, ltb, Bool, true, false, not, ◌&&◌, if◌then◌else◌, Option, none, some, [], ◌∷◌, ℤ, ◌≡◌,
  refl, arith, Bool-cases, Option-cases, inl, inr, float_zero,
}
use palm_infra.ExpertCache.Spec.{TensorSource, expert_pair_bytes}
use palm_infra.ExpertCache.State.{
  Entry, EntryState, IoJob, Cache, Policy, deref, find_entry, valid_pair, is_loading, is_ready,
  entry_bytes,
}
use palm_infra.ExpertCache.Eviction.{resolve, capacity_for}
use palm_infra.ExpertCache.Reserve.{reserve_entry}
use palm_infra.ExpertCache.Io.{enqueue_entry_reads}
use palm_infra.ExpertCache.Request.{find_live}
use palm_infra.ExpertCache.Acquire.{
  pin, Progress, slot_wait, holding, reserve_or_wait, set_active, acquire_found, acquire_lookup,
  acquire_start, acquire_retry, is_ready_entry,
}
use palm_infra.ExpertCache.Store.Bounds.{has_layer}
use palm_infra.ExpertCache.Store.Admission.{IsWellFormed}
use palm_infra.ExpertCache.Store.Calls.{
  Serves-refl, Kept, Kept-refl, Kept-trans, aside-Kept, Held, Kept-Held, Held-trans, modify-Held,
}
use palm_infra.ExpertCache.Store.Walks.{find_live-Kept}
use palm_infra.ExpertCache.Store.Requests.{reserve_entry-Kept, enqueue_entry_reads-Kept}

pub pin-Held : (c : Cache) (p : ℕ) → IsWellFormed c → Held c (pin c p)
unfolding pin entry_bytes
pin-Held c p w =
    modify-Held c p (λ e. record e { pins = e.pins + 1 }) w (λ x. (refl, refl, refl))
      (λ x. record { served = Serves-refl (record x { pins = x.pins + 1 }); pins = omega arith })

reserve_or_wait-Held :
    (c : Cache) (gate_up down : TensorSource) (expert : ℤ) (ready waited : Bool)
    → IsWellFormed c
    → has_layer gate_up.spec.layer c.config.layers ≡ true
    → Held c (reserve_or_wait c gate_up down expert ready waited).0
unfolding reserve_or_wait
reserve_or_wait-Held c gate_up down expert ready waited w registered =
    go (reserve_entry c gate_up down expert false float_zero)
      (reserve_entry-Kept c gate_up down expert false float_zero w registered)
  where
    go :
        (r : Cache × Option ℕ)
        → Kept c r.0
        → Held c
            (elim r.1 as (λ _. Cache × Progress) [
              | none ↦ (r.0, slot_wait ready)
              | some q ↦
                  let pinned = pin r.0 q in
                  let missed = record pinned {
                    counters = record pinned.counters {
                      misses = palm_infra.ExpertCache.State.bump pinned.counters.misses;
                    };
                  } in
                  (
                    enqueue_entry_reads missed (resolve missed.store.entries (q ∷ [])) false,
                    holding q ready waited,
                  )
            ]).0
    go (c', none) k = Kept-Held c c' k
    go (c', some q) k =
        let pinned = pin-Held c' q k.well_formed in
        let missed = aside-Kept (pin c' q) c'.policy _ c'.queues pinned.well_formed in
        let queued =
          Kept-trans _ _ _ missed (enqueue_entry_reads-Kept _ _ false missed.well_formed) in
        Held-trans c c' _ (Kept-Held c c' k) (Held-trans c' _ _ pinned (Kept-Held _ _ queued))

acquire_found-Held :
    (gate_up down : TensorSource) (expert : ℤ) (ready waited : Bool) (r : Cache × Option Entry)
    → IsWellFormed r.0
    → has_layer gate_up.spec.layer r.0.config.layers ≡ true
    → Held r.0 (acquire_found gate_up down expert ready waited r).0
unfolding acquire_found
acquire_found-Held gate_up down expert ready waited (c, some e) w registered =
    pin-Held c e.address w
acquire_found-Held gate_up down expert ready waited (c, none) w registered =
    reserve_or_wait-Held c gate_up down expert ready waited w registered

set_active-Kept : (c : Cache) (layer : ℤ) → IsWellFormed c → Kept c (set_active c layer)
unfolding set_active
set_active-Kept c layer w = go c.config.global_capacity_pool
  where
    go :
        (b : Bool)
        → Kept c (if b then record c { policy = record c.policy { active_layer = layer } } else c)
    go true = aside-Kept c _ _ _ w
    go false = Kept-refl c w

acquire_lookup-Held :
    (c : Cache) (gate_up down : TensorSource) (expert : ℤ) (wait : Bool)
    → IsWellFormed c
    → has_layer gate_up.spec.layer c.config.layers ≡ true
    → Held c (acquire_lookup c gate_up down expert wait).0
unfolding acquire_lookup
acquire_lookup-Held c gate_up down expert wait w registered =
    elim (Bool-cases (not wait && not (is_ready_entry (find_entry c.store gate_up down expert)))) [
      | inl absent ↦ rw (acquire_lookup, absent) (Kept-Held c c (Kept-refl c w))
      | inr there ↦
          let live = find_live-Kept c gate_up down expert w in
          rw (acquire_lookup, there)
            (Held-trans c _ _ (Kept-Held _ _ live) (
              acquire_found-Held gate_up down expert _ false (find_live c gate_up down expert)
                live.well_formed (rw live.config registered)))
    ]

-- From a well-formed cache and for a registered layer, the first piece of an acquire, whether it is
-- refused, waits for a slot or pins an entry: the cache is well-formed afterwards, its configuration
-- is as it was, and every pinned entry is still resident with its buffers and no fewer pins.
pub acquire_start-Held :
    (c : Cache) (gate_up down : TensorSource) (expert : ℤ) (wait : Bool)
    → IsWellFormed c
    → has_layer gate_up.spec.layer c.config.layers ≡ true
    → Held c (acquire_start c gate_up down expert wait).0
unfolding acquire_start
acquire_start-Held c gate_up down expert wait w registered =
    elim (Bool-cases (not (valid_pair c.config gate_up down expert))) [
      | inl invalid ↦ rw (acquire_start, invalid) (Kept-Held c c (Kept-refl c w))
      | inr valid ↦
          elim (Option-cases
            (expert_pair_bytes c.config.page_size gate_up down c.config.read_alignment)) [
              | inl unsized ↦ rw (acquire_start, valid, unsized) (Kept-Held c c (Kept-refl c w))
              | inr (required, sized) ↦
                  elim (Bool-cases (ltb (capacity_for c.config gate_up.spec.layer) required)) [
                    | inl large ↦
                        rw (acquire_start, valid, sized, large) (Kept-Held c c (Kept-refl c w))
                    | inr fits ↦
                        let active = set_active-Kept c gate_up.spec.layer w in
                        rw (acquire_start, valid, sized, fits)
                          (Held-trans c _ _ (Kept-Held _ _ active) (
                            acquire_lookup-Held _ gate_up down expert wait active.well_formed
                              (rw active.config registered)))
                  ]
            ]
    ]

-- The same for a round of the slot loop.
pub acquire_retry-Held :
    (c : Cache) (gate_up down : TensorSource) (expert : ℤ) (ready : Bool)
    → IsWellFormed c
    → has_layer gate_up.spec.layer c.config.layers ≡ true
    → Held c (acquire_retry c gate_up down expert ready).0
unfolding acquire_retry
acquire_retry-Held c gate_up down expert ready w registered =
    let woken = aside-Kept c c.policy _ c.queues w in
    Held-trans c _ _ (Kept-Held _ _ woken)
      (acquire_found-Held gate_up down expert ready true _ woken.well_formed registered)
