-- ===== src/ExpertCache/Store/Reservation.antt =====
-- reserve_entry_locked as a whole: what every caller gets.
use palm_infra.Common.{
  ℕ, suc, ◌≤◌, ltb, Bool, true, Option, none, some, ℤ, ◌≡◌, refl, subst, arith, word_max,
  Bool-cases, Option-cases, inl, inr, Float32,
}
use palm_infra.ExpertCache.Spec.{TensorSource, expert_pair_bytes}
use palm_infra.ExpertCache.State.{Entry, Cache}
use palm_infra.ExpertCache.Eviction.{capacity_for, has_room, Room, room, no_room, exhausted}
use palm_infra.ExpertCache.Reserve.{
  note_reload, touch_layer, fresh_entry, admit, finish_reserve, prepared_cache, reserve_room,
  reserve_entry,
}
use palm_infra.ExpertCache.Store.{IsConsistent}
use palm_infra.ExpertCache.Store.Sizes.{OnSome, pair_sum, expert_pair_bytes_sum}
use palm_infra.ExpertCache.Store.Linking.{value_or-put_self, touch_layer-IsConsistent}
use palm_infra.ExpertCache.Store.Trim.{Trimmed, Trimmed-refl, Trimmed-trans}
use palm_infra.ExpertCache.Store.Bounds.{has_layer}
use palm_infra.ExpertCache.Store.Room.{IsFree, Makes, make_room-Makes}
use palm_infra.ExpertCache.Store.Admission.{IsWellFormed, Trimmed-IsWellFormed, Reserved}
use palm_infra.ExpertCache.Store.Admitting.{
  base_Reserved, deref_fresh, unpinned_of_idle, Reserved-trans, Trimmed-Reserved,
}

touched :
    (speculative : Bool) (confidence : Float32) (c : Cache) (layer : ℤ)
    → IsConsistent c.store
    → Trimmed speculative confidence c (record c { store = touch_layer c.store layer })
unfolding touch_layer
touched speculative confidence c layer v = record {
  consistent = touch_layer-IsConsistent c.store layer v;
  config = refl;
  queues = refl;
  arena = refl;
  next_address = refl;
  epoch = refl;
  active = refl;
  clock = refl;
  protected_stay = λ q e h k. h;
  none_appear = λ q h. h;
  subset = λ f h. h;
  resident = omega arith;
  layer_resident = λ l. omega (arith, value_or-put_self 0 c.store.layer_resident_bytes layer l);
}

noted :
    (speculative : Bool) (confidence : Float32) (c : Cache) (layer expert : ℤ)
    → IsConsistent c.store
    → Trimmed speculative confidence c (note_reload c layer expert)
unfolding note_reload
noted speculative confidence c layer expert v = record {
  consistent = v;
  config = refl;
  queues = refl;
  arena = refl;
  next_address = refl;
  epoch = refl;
  active = refl;
  clock = refl;
  protected_stay = λ q e h k. h;
  none_appear = λ q h. h;
  subset = λ f h. h;
  resident = omega arith;
  layer_resident = λ l. omega arith;
}

prepared_Trimmed :
    (speculative : Bool) (confidence : Float32) (c : Cache) (layer expert : ℤ)
    → IsConsistent c.store
    → Trimmed speculative confidence c (prepared_cache c layer expert)
prepared_Trimmed speculative confidence c layer expert v =
    let t = noted speculative confidence c layer expert v in
    Trimmed-trans speculative confidence c (note_reload c layer expert)
      (prepared_cache c layer expert) t
      (touched speculative confidence (note_reload c layer expert) layer t.consistent)

module _ (speculative : Bool) (confidence : Float32) (gate_up down : TensorSource) (expert : ℤ)
    (required : ℕ) (size : pair_sum gate_up down ≤ required) (word : required ≤ word_max) where
  admit-Reserved :
      (c : Cache) (recycled : Option Entry)
      → IsWellFormed c
      → has_layer gate_up.spec.layer c.config.layers ≡ true
      → has_room c.config c.store gate_up.spec.layer required ≡ true
      → OnSome (IsFree c) recycled
      → Reserved speculative confidence gate_up down expert c
          (admit c gate_up down expert speculative confidence recycled)
  unfolding admit
  admit-Reserved c none w registered fits free =
      base_Reserved speculative confidence gate_up down expert c w required registered size word
        fits (fresh_entry c.store.next_address gate_up down) (suc c.store.next_address)
        c.store.resident_arena (omega arith) (omega arith)
        (deref_fresh c.store.next_address c.store.entries w.consistent.fresh) refl
  admit-Reserved c (some e) w registered fits free =
      base_Reserved speculative confidence gate_up down expert c w required registered size word
        fits e c.store.next_address c.store.resident_arena (omega arith) free.1 free.0
        (unpinned_of_idle e free.2)

  after_loop :
      (a b : Cache) (r : Room)
      → IsWellFormed a
      → has_layer gate_up.spec.layer a.config.layers ≡ true
      → Trimmed speculative confidence a b
      → Makes speculative confidence gate_up.spec.layer required b r
      → Reserved speculative confidence gate_up down expert a
          (finish_reserve gate_up down expert speculative confidence b r)
  unfolding finish_reserve
  after_loop a b (room c recycled) w registered t m =
      let t' = Trimmed-trans speculative confidence a b c t m.0 in
      Reserved-trans speculative confidence gate_up down expert a c _ t' (
        admit-Reserved c recycled (Trimmed-IsWellFormed speculative confidence a c t' w)
          (rw t'.config registered) m.1 m.2)
  after_loop a b (no_room c) w registered t m =
      Trimmed-Reserved speculative confidence gate_up down expert a c w
        (Trimmed-trans speculative confidence a b c t m)
  after_loop a b exhausted w registered t m = absurd m

-- The loop always comes to an end.
reserve_room-Makes :
    (c : Cache) (layer expert : ℤ) (required : ℕ) (speculative : Bool) (confidence : Float32)
    → IsConsistent c.store
    → Makes speculative confidence layer required
        (prepared_cache c layer expert)
        (reserve_room c layer expert required speculative confidence)
unfolding reserve_room touch_layer note_reload
reserve_room-Makes c layer expert required speculative confidence v =
    make_room-Makes _ _ layer required speculative confidence none
      (prepared_Trimmed speculative confidence c layer expert v).consistent (omega arith) tt

Makes-ends :
    (speculative : Bool) (confidence : Float32) (layer : ℤ) (required : ℕ) (c : Cache) (r : Room)
    → Makes speculative confidence layer required c r
    → ¬ (r ≡ exhausted)
Makes-ends speculative confidence layer required c r m h =
    subst (Makes speculative confidence layer required c) h m

pub reserve_entry_lem :
    (c : Cache) (gate_up down : TensorSource) (expert : ℤ) (speculative : Bool)
    (confidence : Float32)
    → IsWellFormed c
    → has_layer gate_up.spec.layer c.config.layers ≡ true
    → Reserved speculative confidence gate_up down expert c
        (reserve_entry c gate_up down expert speculative confidence)
unfolding reserve_entry
reserve_entry_lem c gate_up down expert speculative confidence w registered =
    elim (Option-cases
      (expert_pair_bytes c.config.page_size gate_up down c.config.read_alignment)) [
        | inl none_fits ↦ rw (none_fits, reserve_entry) unchanged
        | inr (required, sized) ↦
            elim (Bool-cases (ltb (capacity_for c.config gate_up.spec.layer) required)) [
              | inl large ↦ rw (sized, reserve_entry, large) unchanged
              | inr small ↦
                  let (sum, word) =
                    expert_pair_bytes_sum c.config.page_size gate_up down c.config.read_alignment
                      required sized in
                  rw (sized, reserve_entry, small)
                    (after_loop speculative confidence gate_up down expert required sum word c
                      (prepared_cache c gate_up.spec.layer expert) _ w registered
                      (prepared_Trimmed speculative confidence c gate_up.spec.layer expert
                        w.consistent)
                      (reserve_room-Makes c gate_up.spec.layer expert required speculative
                        confidence w.consistent))
            ]
      ]
  where
    unchanged : Reserved speculative confidence gate_up down expert c (c, none)
    unchanged =
        Trimmed-Reserved speculative confidence gate_up down expert c c w
          (Trimmed-refl speculative confidence c w.consistent)

-- Whatever the pair and the mode, from a well-formed cache and for a registered layer: the indexes
-- agree afterwards and the capacity is respected, the configuration and the queues are as they were,
-- every entry in use is still resident and unchanged, and so is, for an advisory read, every entry
-- that it may not displace; a pointer that is returned is that of a loading, unpinned entry of the
-- pair. The eviction loop comes to an end for any number of bytes: it never runs out of its fuel.
pub reserve_entry-Reserved :
    (c : Cache) (gate_up down : TensorSource) (expert : ℤ) (speculative : Bool)
    (confidence : Float32) (required : ℕ)
    → IsWellFormed c
    → has_layer gate_up.spec.layer c.config.layers ≡ true
    → Reserved speculative confidence gate_up down expert c
        (reserve_entry c gate_up down expert speculative confidence)
      × ¬ (reserve_room c gate_up.spec.layer expert required speculative confidence ≡ exhausted)
reserve_entry-Reserved c gate_up down expert speculative confidence required w registered = (
  reserve_entry_lem c gate_up down expert speculative confidence w registered,
  Makes-ends speculative confidence gate_up.spec.layer required _ _
      (reserve_room-Makes c gate_up.spec.layer expert required speculative confidence w.consistent),
)
