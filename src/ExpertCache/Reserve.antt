-- ===== src/ExpertCache/Reserve.antt =====
-- The rest of reserve_entry_locked of cache.cpp: the new entry, its buffers and its place in the indexes.
use palm_infra.Common.{
  ℕ, suc, ◌-◌, ltb, leb, ◌==◌, Bool, true, false, ◌&&◌, if◌then◌else◌, Option, none, some, [], ◌∷◌,
  ◌++◌, ℤ, pos, int_eq, any_of, length, add64, Float32, float_zero,
}
use palm_infra.ExpertCache.Spec.{TensorSource, expert_pair_bytes}
use palm_infra.ExpertCache.State.{
  Arena, empty_buffer, Entry, EntryState, Store, Cache, Policy, entry_bytes, entry_layer, put,
  value_or, bump,
}
use palm_infra.ExpertCache.Buffers.{resize_all, resize_all_in_arena}
use palm_infra.ExpertCache.Remove.{eviction_key, counters_of}
use palm_infra.ExpertCache.Eviction.{capacity_for, Room, room, no_room, exhausted, make_room}

-- Whether the expert was evicted in this forward pass or in the one before.
unfoldable pub evicted_lately : Policy → ℕ → Bool
evicted_lately p key = elim (p.last_evicted_epoch key) [
  | none ↦ false
  | some epoch ↦ leb epoch p.forward_epoch && leb (p.forward_epoch - epoch) 1
]

-- The short-term reload statistic: a reload is counted once, and its record dropped.
unfoldable pub note_reload : Cache → ℤ → ℤ → Cache
unfolding eviction_key counters_of evicted_lately
note_reload c layer expert =
    let key = eviction_key layer expert in
    let l = counters_of c.counters layer in
    let lately = evicted_lately c.policy key in
    record c {
      counters = record c.counters {
        layer_stats =
            if lately
            then put c.counters.layer_stats layer
                (record l { short_term_reloads = bump l.short_term_reloads })
            else c.counters.layer_stats;
      };
      policy = record c.policy {
        last_evicted_epoch =
            if lately
            then (λ k. if k == key then none else c.policy.last_evicted_epoch k)
            else c.policy.last_evicted_epoch;
      };
    }

-- operator[] on the two maps of a layer creates what is missing.
unfoldable pub touch_layer : Store → ℤ → Store
touch_layer s layer = record s {
  layer_resident_bytes =
      put s.layer_resident_bytes layer (value_or 0 (s.layer_resident_bytes layer));
  layer_entries = put s.layer_entries layer (value_or [] (s.layer_entries layer));
}

abbrev pub fresh_entry : ℕ → TensorSource → TensorSource → Entry
fresh_entry address gate_up down = record {
  address = address;
  gate_up = gate_up;
  down = down;
  expert = pos 0;
  used_at = 0;
  state = EntryState.loading;
  pending_reads = 0;
  pins = 0;
  fresh_miss = false;
  speculative = false;
  load_origin_speculative = false;
  retained = false;
  forward_epoch = 0;
  prediction_epoch = 0;
  prediction_confidence = float_zero;
  gate_up_data = empty_buffer;
  gate_up_scales = empty_buffer;
  down_data = empty_buffer;
  down_scales = empty_buffer;
}

-- The fields of the entry, recycled or new, before its buffers are sized.
unfoldable pub prepare : Policy → Entry → TensorSource → TensorSource → ℤ → Bool → Float32 → Entry
prepare p e gate_up down expert speculative confidence = record e {
  gate_up = gate_up;
  down = down;
  expert = expert;
  used_at = bump p.clock;
  state = EntryState.loading;
  pending_reads = 0;
  fresh_miss = true;
  speculative = speculative;
  load_origin_speculative = speculative;
  retained = any_of (λ x. int_eq x expert) (value_or [] (p.retained_experts gate_up.spec.layer));
  forward_epoch = p.forward_epoch;
  prediction_epoch = if speculative then p.forward_epoch else 0;
  prediction_confidence = if speculative then confidence else float_zero;
}

-- The sized entry is linked into every structure.
unfoldable pub link : Store → Entry → Store
unfolding entry_bytes
link s e = record s {
  entries = s.entries ++ e ∷ [];
  eviction_entries = s.eviction_entries ++ e.address ∷ [];
  layer_entries =
      put s.layer_entries (entry_layer e)
        (value_or [] (s.layer_entries (entry_layer e)) ++ e.address ∷ []);
  layer_resident_bytes =
      put s.layer_resident_bytes (entry_layer e)
        (add64 (value_or 0 (s.layer_resident_bytes (entry_layer e))) (entry_bytes e));
  resident_bytes = add64 s.resident_bytes (entry_bytes e);
}

-- The last lines of reserve_entry_locked: the clock has moved, and the entry is linked if its buffers
-- have their sizes.
unfoldable pub link_sized : Cache → Entry → ℕ → Option Arena → Option Entry → Cache × Option ℕ
link_sized c e next arena sized =
    let s = record c.store { next_address = next; resident_arena = arena } in
    let p = record c.policy { clock = bump c.policy.clock } in
    elim sized [
      | none ↦ (record c { store = s; policy = p }, none)
      | some e' ↦ (record c { store = link s e'; policy = p }, some e.address)
    ]

unfoldable pub admit_base :
    Cache
    → TensorSource
    → TensorSource
    → ℤ
    → Bool
    → Float32
    → Entry
    → ℕ
    → Option Arena
    → Cache × Option ℕ
unfolding link_sized
admit_base c gate_up down expert speculative confidence e next none =
    link_sized c e next none (
      some
        (resize_all (prepare c.policy e gate_up down expert speculative confidence) gate_up down))
admit_base c gate_up down expert speculative confidence e next (some arena) =
    let (sized, arena') =
      resize_all_in_arena (prepare c.policy e gate_up down expert speculative confidence) gate_up
        down arena in
    link_sized c e next (some arena') sized

-- The part of reserve_entry_locked past its loop, with the recycled entry or a new one.
unfoldable pub admit :
    Cache → TensorSource → TensorSource → ℤ → Bool → Float32 → Option Entry → Cache × Option ℕ
admit c gate_up down expert speculative confidence none =
    admit_base c gate_up down expert speculative confidence
      (fresh_entry c.store.next_address gate_up down) (suc c.store.next_address)
      c.store.resident_arena
admit c gate_up down expert speculative confidence (some recycled) =
    admit_base c gate_up down expert speculative confidence recycled c.store.next_address
      c.store.resident_arena

-- After the loop. A loop that has run out of fuel gives a pointer at which there is no entry.
unfoldable pub finish_reserve :
    TensorSource → TensorSource → ℤ → Bool → Float32 → Cache → Room → Cache × Option ℕ
finish_reserve gate_up down expert speculative confidence c (room c' recycled) =
    admit c' gate_up down expert speculative confidence recycled
finish_reserve gate_up down expert speculative confidence c (no_room c') = (c', none)
finish_reserve gate_up down expert speculative confidence c exhausted =
    (c, some c.store.next_address)

-- The bookkeeping before the loop.
abbrev pub prepared_cache : Cache → ℤ → ℤ → Cache
prepared_cache c layer expert =
    let noted = note_reload c layer expert in record noted { store = touch_layer noted.store layer }

-- The loop, with one round more than there are entries.
unfoldable pub reserve_room : Cache → ℤ → ℤ → ℕ → Bool → Float32 → Room
reserve_room c layer expert required speculative confidence =
    make_room (suc (length c.store.entries)) (prepared_cache c layer expert) layer required
      speculative confidence none

-- The new entry's pointer, or none, beside the cache with what was evicted and counted on the way.
unfoldable pub reserve_entry :
    Cache → TensorSource → TensorSource → ℤ → Bool → Float32 → Cache × Option ℕ
reserve_entry c gate_up down expert speculative confidence =
    let layer = gate_up.spec.layer in
    elim (expert_pair_bytes c.config.page_size gate_up down c.config.read_alignment) [
      | none ↦ (c, none)
      | some required ↦
          if ltb (capacity_for c.config layer) required
          then (c, none)
          else finish_reserve gate_up down expert speculative confidence
              (prepared_cache c layer expert)
              (reserve_room c layer expert required speculative confidence)
    ]
