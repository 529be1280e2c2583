-- ===== src/ExpertCache/Acquire.antt =====
-- acquire_impl of cache.cpp in the pieces between its waits, and the leases of provider.cpp. The
-- mutex is held throughout a piece; a wait ends a piece, and the next one starts from the cache as
-- other threads have left it.
use palm_infra.Common.{
  ℕ, ◌+◌, ◌-◌, ltb, Bool, true, false, not, ◌&&◌, ◌||◌, if◌then◌else◌, Option, none, some, [], ◌∷◌,
  ℤ, add64, float_zero,
}
use palm_infra.ExpertCache.Spec.{TensorSource, expert_pair_bytes}
use palm_infra.ExpertCache.State.{
  Entry, Cache, Policy, Counters, entry_bytes, is_loading, is_ready, valid_pair, find_entry, deref,
  put, bump,
}
use palm_infra.ExpertCache.Remove.{counters_of}
use palm_infra.ExpertCache.Eviction.{capacity_for, resolve}
use palm_infra.ExpertCache.Reserve.{reserve_entry}
use palm_infra.ExpertCache.Io.{modify, enqueue_entry_reads}
use palm_infra.ExpertCache.Request.{find_live}

-- ++entry->pins and --entry->pins.
unfoldable pub pin : Cache → ℕ → Cache
unfolding modify
pin c p = record c {
  store = record c.store {
    entries = modify p (λ e. record e { pins = e.pins + 1 }) c.store.entries;
  };
}

unfoldable pub unpin : Cache → ℕ → Cache
unfolding modify
unpin c p = record c {
  store = record c.store {
    entries = modify p (λ e. record e { pins = e.pins - 1 }) c.store.entries;
  };
}

-- Where a call of acquire_impl stands: it has returned false, it waits for a slot, or it holds a pin
-- on an entry whose load it waits for. `waited` is the flag of that name.
pub data Progress : Type 0 where
  refused : Progress
  slot_wait : (ready_at_lookup : Bool) → Progress
  holding : (entry : ℕ) (ready_at_lookup waited : Bool) → Progress

unfoldable pub is_loading_entry : Option Entry → Bool
is_loading_entry none = false
is_loading_entry (some e) = is_loading e

-- The test before the last wait: an entry that is still loading is waited for.
unfoldable pub begin_last_wait : Cache → Progress → Progress
unfolding is_loading_entry
begin_last_wait c refused = refused
begin_last_wait c (slot_wait ready_at_lookup) = slot_wait ready_at_lookup
begin_last_wait c (holding q ready_at_lookup waited) =
    holding q ready_at_lookup (waited || is_loading_entry (deref c.store.entries q))

-- The body of the loop for an entry that is not there: reserve, pin and enqueue, or wait for a slot.
-- The mutex is given up after it; `begin_last_wait` runs on the cache that the thread finds then.
unfoldable pub reserve_or_wait :
    Cache → TensorSource → TensorSource → ℤ → Bool → Bool → Cache × Progress
unfolding pin
reserve_or_wait c gate_up down expert ready_at_lookup waited =
    let (c', p) = reserve_entry c gate_up down expert false float_zero in
    elim p [
      | none ↦ (c', slot_wait ready_at_lookup)
      | some q ↦
          let pinned = pin c' q in
          let missed = record pinned {
            counters = record pinned.counters { misses = bump pinned.counters.misses };
          } in
          (
            enqueue_entry_reads missed (resolve missed.store.entries (q ∷ [])) false,
            holding q ready_at_lookup waited,
          )
    ]

unfoldable pub set_active : Cache → ℤ → Cache
set_active c layer =
    if c.config.global_capacity_pool
    then record c { policy = record c.policy { active_layer = layer } }
    else c

unfoldable pub is_ready_entry : Option Entry → Bool
is_ready_entry none = false
is_ready_entry (some e) = is_ready e

-- The pin on an entry that was found, and the test before the last wait at once.
unfoldable pub acquire_found :
    TensorSource → TensorSource → ℤ → Bool → Bool → Cache × Option Entry → Cache × Progress
unfolding pin begin_last_wait
acquire_found gate_up down expert ready_at_lookup waited (c, some e) =
    let pinned = pin c e.address in
    (pinned, begin_last_wait pinned (holding e.address ready_at_lookup waited))
acquire_found gate_up down expert ready_at_lookup waited (c, none) =
    reserve_or_wait c gate_up down expert ready_at_lookup waited

unfoldable pub acquire_lookup : Cache → TensorSource → TensorSource → ℤ → Bool → Cache × Progress
unfolding is_ready_entry
acquire_lookup c gate_up down expert wait =
    let ready = is_ready_entry (find_entry c.store gate_up down expert) in
    if not wait && not ready
    then (c, refused)
    else acquire_found gate_up down expert ready false (find_live c gate_up down expert)

-- Up to the first wait.
unfoldable pub acquire_start : Cache → TensorSource → TensorSource → ℤ → Bool → Cache × Progress
acquire_start c gate_up down expert wait =
    if not (valid_pair c.config gate_up down expert)
    then (c, refused)
    else elim (expert_pair_bytes c.config.page_size gate_up down c.config.read_alignment) [
      | none ↦ (c, refused)
      | some required ↦
          if ltb (capacity_for c.config gate_up.spec.layer) required
          then (c, refused)
          else acquire_lookup (set_active c gate_up.spec.layer) gate_up down expert wait
    ]

-- A round of the slot loop, after a wake-up.
unfoldable pub acquire_retry : Cache → TensorSource → TensorSource → ℤ → Bool → Cache × Progress
acquire_retry c gate_up down expert ready_at_lookup =
    let woken = record c {
      counters = record c.counters { slot_waits = bump c.counters.slot_waits };
    } in
    acquire_found gate_up down expert ready_at_lookup true
      (woken, find_entry woken.store gate_up down expert)

-- The statistics of a successful acquire.
unfoldable pub count_acquire : Counters → Entry → Bool → Bool → Counters
unfolding counters_of entry_bytes
count_acquire k e ready_at_lookup waited =
    let layer = e.gate_up.spec.layer in
    let l = counters_of k layer in
    record k {
      expert_bytes_acquired = add64 k.expert_bytes_acquired (entry_bytes e);
      cross_layer_used = if e.speculative then bump k.cross_layer_used else k.cross_layer_used;
      useful_prefetch_bytes =
          if e.speculative
          then add64 k.useful_prefetch_bytes (entry_bytes e)
          else k.useful_prefetch_bytes;
      hits = if e.fresh_miss then k.hits else bump k.hits;
      layer_stats = put k.layer_stats layer (record l {
        demand_acquires = bump l.demand_acquires;
        acquires_ready_at_lookup =
            if ready_at_lookup then bump l.acquires_ready_at_lookup else l.acquires_ready_at_lookup;
        acquires_waited = if waited then bump l.acquires_waited else l.acquires_waited;
        demand_misses = if e.fresh_miss then bump l.demand_misses else l.demand_misses;
        demand_hits = if e.fresh_miss then l.demand_hits else bump l.demand_hits;
      });
    }

-- A consumed entry is no prediction any more, and its first use after a miss is no hit.
unfoldable pub consume : Policy → Entry → Entry
consume p e = record e {
  used_at = bump p.clock;
  forward_epoch = p.forward_epoch;
  speculative = false;
  prediction_epoch = 0;
  prediction_confidence = float_zero;
  fresh_miss = false;
}

-- How the last wait ends: not yet, with false, or with true.
pub data Outcome : Type 0 where
  still_waiting failure success : Outcome

-- From the predicate of the last wait to the return. With `keep_pin` the pin goes to the lease.
unfoldable pub acquire_finish : Cache → ℕ → Bool → Bool → Bool → Cache × Outcome
unfolding count_acquire consume modify unpin
acquire_finish c p ready_at_lookup waited keep_pin = elim (deref c.store.entries p) [
  | none ↦ (c, failure)
  | some e ↦
      if is_loading e
      then (c, still_waiting)
      else if not (is_ready e)
      then (unpin c p, failure)
      else let used = record c {
        store = record c.store { entries = modify p (consume c.policy) c.store.entries };
        counters = count_acquire c.counters e ready_at_lookup waited;
        policy = record c.policy { clock = bump c.policy.clock };
      } in
        (if keep_pin then used else unpin used p, success)
]

-- release_lease.
unfoldable pub release_lease : Cache → ℕ → Cache
unfolding unpin
release_lease c p = unpin c p
