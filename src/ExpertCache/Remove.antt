-- ===== src/ExpertCache/Remove.antt =====
-- remove_entry_locked of cache.cpp.
use palm_infra.Common.{
  ℕ, ◌+◌, ◌-◌, ◌*◌, ◌%◌, ltb, ◌==◌, Bool, not, ◌||◌, if◌then◌else◌, Option, none, some, List, [],
  ◌∷◌, ℤ, pos, negsuc, any_of, add64,
}
use palm_infra.ExpertCache.State.{
  Entry, Store, Cache, Counters, Policy, entry_bytes, entry_layer, deref, put, value_or, bump,
  LayerCounters, no_counts,
}
use palm_infra.ExpertCache.Victim.{is_busy}

-- static_cast<uint32_t> of an int.
abbrev pub to_u32 : ℤ → ℕ
to_u32 (pos n) = n % 4294967296
to_u32 (negsuc n) = 4294967295 - n % 4294967296

unfoldable pub eviction_key : ℤ → ℤ → ℕ
eviction_key layer expert = to_u32 layer * 4294967296 + to_u32 expert

abbrev pub holds : ℕ → List ℕ → Bool
holds p = any_of (λ q. q == p)

unfoldable pub erase_pointer : ℕ → List ℕ → List ℕ
erase_pointer p [] = []
erase_pointer p (q ∷ qs) = if q == p then qs else q ∷ erase_pointer p qs

unfoldable pub erase_entry : ℕ → List Entry → List Entry
erase_entry p [] = []
erase_entry p (e ∷ es) = if e.address == p then es else e ∷ erase_entry p es

-- Every structure that names the entry drops it, and both byte counts fall by its size.
unfoldable pub unlink : Store → Entry → List ℕ → ℕ → Store
unfolding erase_pointer erase_entry entry_bytes
unlink s e in_layer layer_bytes = record s {
  entries = erase_entry e.address s.entries;
  eviction_entries = erase_pointer e.address s.eviction_entries;
  layer_entries = put s.layer_entries (entry_layer e) (erase_pointer e.address in_layer);
  layer_resident_bytes = put s.layer_resident_bytes (entry_layer e) (layer_bytes - entry_bytes e);
  resident_bytes = s.resident_bytes - entry_bytes e;
}

unfoldable pub counters_of : Counters → ℤ → LayerCounters
counters_of k layer = value_or no_counts (k.layer_stats layer)

unfoldable pub count_eviction_of : Counters → Entry → Counters
unfolding entry_bytes counters_of
count_eviction_of k e =
    let counted = record k { evictions = bump k.evictions } in
    let l = counters_of k (entry_layer e) in
    if e.speculative
    then record counted {
      layer_stats =
          put k.layer_stats (entry_layer e)
            (record l { unused_prefetch_evictions = bump l.unused_prefetch_evictions });
      unused_prefetch_bytes = add64 k.unused_prefetch_bytes (entry_bytes e);
    }
    else record counted { layer_stats = put k.layer_stats (entry_layer e) l }

unfoldable pub note_eviction : Policy → Entry → Policy
unfolding eviction_key
note_eviction p e = record p {
  last_evicted_epoch = λ key.
      if key == eviction_key (entry_layer e) e.expert
      then some p.forward_epoch
      else p.last_evicted_epoch key;
}

-- `none` is the null pointer; the cache is then as it was.
unfoldable pub remove_entry : Cache → ℕ → Bool → Option (Cache × Entry)
unfolding is_busy deref unlink count_eviction_of note_eviction
remove_entry c p count_eviction = elim (deref c.store.entries p) [
  | none ↦ none
  | some e ↦ elim (c.store.layer_entries (entry_layer e)) [
    | none ↦ none
    | some in_layer ↦ elim (c.store.layer_resident_bytes (entry_layer e)) [
      | none ↦ none
      | some layer_bytes ↦
          if is_busy e
            || not (holds p in_layer)
            || not (holds p c.store.eviction_entries)
            || ltb layer_bytes (entry_bytes e)
            || ltb c.store.resident_bytes (entry_bytes e)
          then none
          else if count_eviction
          then some (
            record c {
              store = unlink c.store e in_layer layer_bytes;
              counters = count_eviction_of c.counters e;
              policy = note_eviction c.policy e;
            },
            e,
          )
          else some (record c { store = unlink c.store e in_layer layer_bytes }, e)
    ]
  ]
]
