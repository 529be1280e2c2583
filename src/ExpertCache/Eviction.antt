-- ===== src/ExpertCache/Eviction.antt =====
-- The eviction loop of reserve_entry_locked, cache.cpp: it makes room for a new entry.
use palm_infra.Common.{
  ℕ, zero, suc, ◌-◌, leb, Bool, true, false, not, ◌&&◌, ◌||◌, if◌then◌else◌, Option, none, some,
  List, [], ◌∷◌, ℤ, Float32, float_lt,
}
use palm_infra.ExpertCache.State.{
  Entry, Store, Cache, Config, Policy, deref, value_or, expert_capacity_bytes,
  layer_capacity_bytes_locked,
}
use palm_infra.ExpertCache.Victim.{
  is_busy, is_stale, has_left, is_predicted, prefer_left_layer_eviction, scan_global, scan_layer,
}
use palm_infra.ExpertCache.Remove.{remove_entry}

-- The capacity that a layer's reservations are held to, and the bytes that count against it.
unfoldable pub capacity_for : Config → ℤ → ℕ
capacity_for c layer =
    if c.global_capacity_pool then expert_capacity_bytes c else layer_capacity_bytes_locked c layer

unfoldable pub used_for : Config → Store → ℤ → ℕ
used_for c s layer =
    if c.global_capacity_pool then s.resident_bytes else value_or 0 (s.layer_resident_bytes layer)

unfoldable pub has_room : Config → Store → ℤ → ℕ → Bool
has_room c s layer required =
    leb (used_for c s layer) (capacity_for c layer)
    && leb required (capacity_for c layer - used_for c s layer)

-- The entries behind a vector of pointers.
unfoldable pub resolve : List Entry → List ℕ → List Entry
unfolding deref
resolve es [] = []
resolve es (p ∷ ps) = elim (deref es p) [ none ↦ resolve es ps | some e ↦ e ∷ resolve es ps ]

unfoldable pub choose_victim : Cache → ℤ → Option Entry
unfolding resolve prefer_left_layer_eviction scan_global scan_layer
choose_victim c layer =
    if c.config.global_capacity_pool
    then scan_global c.config c.policy (prefer_left_layer_eviction c.config c.policy) none
        (resolve c.store.entries c.store.eviction_entries)
    else scan_layer none (resolve c.store.entries (value_or [] (c.store.layer_entries layer)))

-- What an advisory read may evict: stale or left-layer space, or a weaker prediction.
unfoldable pub may_displace : Policy → Entry → Float32 → Bool
unfolding is_stale has_left is_predicted
may_displace p victim confidence =
    is_stale p victim
    || has_left p victim
    || (victim.speculative
        && is_predicted p victim
        && float_lt victim.prediction_confidence confidence)

-- The checks that stop the loop at the chosen victim: one in use, and for an advisory read one that
-- it may not evict.
unfoldable pub is_protected : Policy → Bool → Float32 → Entry → Bool
is_protected p speculative confidence e =
    is_busy e || (speculative && not (may_displace p e confidence))

-- How the loop ends: with room and the first entry removed, or without.
pub data Room : Type 0 where
  room : Cache → Option Entry → Room
  no_room : Cache → Room
  exhausted : Room

abbrev pub first_removed : Option Entry → Entry → Option Entry
first_removed none e = some e
first_removed (some r) e = some r

-- The while loop. Every round but the last removes an entry, so `fuel` is above their number.
unfoldable pub make_room : ℕ → Cache → ℤ → ℕ → Bool → Float32 → Option Entry → Room
make_room zero c layer required speculative confidence recycled = exhausted
make_room (suc fuel) c layer required speculative confidence recycled =
    elim (has_room c.config c.store layer required) [
      | true ↦ room c recycled
      | false ↦ elim (choose_victim c layer) [
        | none ↦ no_room c
        | some victim ↦ elim (is_protected c.policy speculative confidence victim) [
          | true ↦ no_room c
          | false ↦ elim (remove_entry c victim.address true) [
            | none ↦ no_room c
            | some (c', removed) ↦
                make_room fuel c' layer required speculative confidence
                  (first_removed recycled removed)
          ]
        ]
      ]
    ]
