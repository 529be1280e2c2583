-- ===== src/ExpertCache/Store/Admission.antt =====
-- The well-formed cache, and what reserve_entry_locked of cache.cpp owes its callers.
use palm_infra.Common.{
  ℕ, ◌+◌, ◌≤◌, ◌<◌, Bool, true, Option, none, some, List, [], ◌∷◌, ℤ, int_eq, int_eq_iff, ◌≡◌, ap,
  arith, All, All-append, word_mod, Bool-cases, inl, inr, Float32,
}
use palm_infra.ExpertCache.Spec.{TensorSource}
use palm_infra.ExpertCache.State.{
  Arena, Entry, EntryState, Store, Cache, Config, Policy, entry_bytes, entry_layer, deref, value_or,
  layer_capacity_bytes_locked,
}
use palm_infra.ExpertCache.Eviction.{capacity_for, used_for, has_room, is_protected}
use palm_infra.ExpertCache.Reserve.{link}
use palm_infra.ExpertCache.Store.{IsConsistent}
use palm_infra.ExpertCache.Store.Sizes.{OnSome}
use palm_infra.ExpertCache.Store.Linking.{link-IsConsistent}
use palm_infra.ExpertCache.Store.Trim.{Trimmed}
use palm_infra.ExpertCache.Store.Bounds.{
  has_layer, IsBounded, total_fits_word, layer_fits_word, has_room_sum,
}

pub record IsWellFormed (c : Cache) : Type 0 where
  pub consistent : IsConsistent c.store
  pub bounded : IsBounded c

used_for_mono :
    (c : Config) (s t : Store) (l : ℤ)
    → t.resident_bytes ≤ s.resident_bytes
    → value_or 0 (t.layer_resident_bytes l) ≤ value_or 0 (s.layer_resident_bytes l)
    → used_for c t l ≤ used_for c s l
unfolding used_for
used_for_mono c s t l h k = ground arith

pub Trimmed-IsWellFormed :
    (speculative : Bool) (confidence : Float32) (c c' : Cache)
    → Trimmed speculative confidence c c'
    → IsWellFormed c
    → IsWellFormed c'
Trimmed-IsWellFormed speculative confidence c c' t w = record {
  consistent = t.consistent;
  bounded = record {
    within = λ l. rw t.config (
        omega (
          arith,
          w.bounded.within l,
          used_for_mono c.config c.store c'.store l t.resident (t.layer_resident l),
        ));
    known = rw t.config (t.subset (λ e. has_layer (entry_layer e) c.config.layers) w.bounded.known);
    quotas = rw t.config w.bounded.quotas;
  };
}

-- The entry that a reservation returns a pointer to.
abbrev pub IsNew : Cache → TensorSource → TensorSource → ℤ → ℕ → Type 0
IsNew c gate_up down expert p =
    (e : Entry) × (deref c.store.entries p ≡ some e)
    × (e.gate_up ≡ gate_up)
    × (e.down ≡ down)
    × (e.expert ≡ expert)
    × (e.state ≡ EntryState.loading)
    × (e.pins ≡ 0)
    × (e.pending_reads ≡ 0)

-- What a reservation owes, whether it returns a pointer or not.
pub record Reserved (speculative : Bool) (confidence : Float32) (gate_up down : TensorSource)
    (expert : ℤ) (c : Cache) (r : Cache × Option ℕ) : Type 0 where
  pub well_formed : IsWellFormed r.0
  pub config : r.0.config ≡ c.config
  pub queues : r.0.queues ≡ c.queues
  pub epoch : r.0.policy.forward_epoch ≡ c.policy.forward_epoch
  pub active : r.0.policy.active_layer ≡ c.policy.active_layer
  pub protected_stay :
      (q : ℕ) (e : Entry)
      → deref c.store.entries q ≡ some e
      → is_protected c.policy speculative confidence e ≡ true
      → deref r.0.store.entries q ≡ some e
  pub admitted : OnSome (IsNew r.0 gate_up down expert) r.1

below_mono :
    (n m : ℕ) (es : List Entry) → n ≤ m → All (λ e. e.address < n) es → All (λ e. e.address < m) es
below_mono n m [] h b = tt
below_mono n m (e ∷ es) h b = (omega arith, below_mono n m es h b.1)

-- A later allocation or another arena changes no index.
abbrev pub renewed : Store → ℕ → Option Arena → Store
renewed s next arena = record s { next_address = next; resident_arena = arena }

pub renewed-IsConsistent :
    (s : Store) (next : ℕ) (arena : Option Arena)
    → s.next_address ≤ next
    → IsConsistent s
    → IsConsistent (renewed s next arena)
renewed-IsConsistent s next arena h v = record {
  distinct = v.distinct;
  fresh = below_mono s.next_address next s.entries h v.fresh;
  order = v.order;
  by_layer = v.by_layer;
  paired = v.paired;
  total = v.total;
  layer_total = v.layer_total;
}

module _ (c : Cache) (w : IsWellFormed c) (e : Entry) (next : ℕ) (arena : Option Arena)
    (required : ℕ) (later : c.store.next_address ≤ next) (low : e.address < next)
    (absent : deref c.store.entries e.address ≡ none)
    (registered : has_layer (entry_layer e) c.config.layers ≡ true)
    (size : entry_bytes e ≤ required)
    (fits : has_room c.config c.store (entry_layer e) required ≡ true) where
  abbrev pub linked : Store
  linked = link (renewed c.store next arena) e

  total_fits : c.store.resident_bytes + entry_bytes e < word_mod
  total_fits =
      omega
        (arith, total_fits_word c w.consistent w.bounded (entry_layer e) required registered fits)

  layer_fits : value_or 0 (c.store.layer_resident_bytes (entry_layer e)) + entry_bytes e < word_mod
  layer_fits =
      omega
        (arith, layer_fits_word c w.consistent w.bounded (entry_layer e) required registered fits)

  linked_within : (l : ℤ) → used_for c.config linked l ≤ capacity_for c.config l
  unfolding link used_for capacity_for
  linked_within l = elim (Bool-cases (int_eq (entry_layer e) l)) [
    | inl here ↦
        let same =
          ap (λ k. value_or 0 (c.store.layer_resident_bytes k)) ((int_eq_iff _ l).0 here) in
        let quota = ap (layer_capacity_bytes_locked c.config) ((int_eq_iff _ l).0 here) in
        ground (
          arith,
          w.bounded.within l,
          has_room_sum c.config c.store (entry_layer e) required fits,
          total_fits,
          layer_fits,
          same,
          quota,
        )
    | inr other ↦ ground (
      arith,
      w.bounded.within l,
      has_room_sum c.config c.store (entry_layer e) required fits,
      total_fits,
    )
  ]

  pub linked-IsWellFormed : (p : Policy) → IsWellFormed (record c { store = linked; policy = p })
  unfolding link
  linked-IsWellFormed p = record {
    consistent =
        link-IsConsistent (renewed c.store next arena)
          (renewed-IsConsistent c.store next arena later w.consistent) e absent low total_fits
          layer_fits;
    bounded = record {
      within = linked_within;
      known =
          All-append (λ x. has_layer (entry_layer x) c.config.layers ≡ true) c.store.entries
            (e ∷ []) w.bounded.known (registered, tt);
      quotas = w.bounded.quotas;
    };
  }
