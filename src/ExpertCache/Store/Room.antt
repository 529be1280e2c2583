-- ===== src/ExpertCache/Store/Room.antt =====
-- The eviction loop of reserve_entry_locked of cache.cpp: its end and the room that it makes.
use palm_infra.Common.{
  ℕ, zero, suc, ◌<◌, Bool, true, false, Option, none, some, List, [], ◌∷◌, ℤ, ◌≡◌, ◌∙◌, ap, arith,
  All, length, Bool-cases, Option-cases, inl, inr, Float32,
}
use palm_infra.ExpertCache.State.{Entry, Cache, Policy, Config, deref, value_or}
use palm_infra.ExpertCache.Victim.{
  is_busy, keep_better, scan_global, scan_layer, layer_victim_before, prefer_left_layer_eviction,
}
use palm_infra.ExpertCache.Remove.{remove_entry, unlink}
use palm_infra.ExpertCache.Eviction.{
  resolve, choose_victim, has_room, Room, room, no_room, exhausted, make_room, first_removed,
  is_protected,
}
use palm_infra.ExpertCache.Store.{IsConsistent}
use palm_infra.ExpertCache.Store.Sizes.{OnSome, OnSome-if}
use palm_infra.ExpertCache.Store.Erase.{deref-address, length-erase_entry}
use palm_infra.ExpertCache.Store.Removal.{after_removal, remove_entry_found}
use palm_infra.ExpertCache.Store.Trim.{
  Trimmed, Trimmed-refl, Trimmed-trans, removal-Trimmed, deref-erase_entry_self,
}

abbrev IsResident : List Entry → Entry → Type 0
IsResident es e = deref es e.address ≡ some e

resolve-IsResident : (es : List Entry) (ps : List ℕ) → All (IsResident es) (resolve es ps)
unfolding resolve
resolve-IsResident es [] = tt
resolve-IsResident es (p ∷ ps) = elim (Option-cases (deref es p)) [
  | inl h ↦ rw (h, resolve) (resolve-IsResident es ps)
  | inr (e, h) ↦
      let at_own : deref es e.address ≡ some e = ap (deref es) (deref-address p es e h) ∙ h in
      rw (h, resolve) (at_own, resolve-IsResident es ps)
]

keep_better_either :
    (P : Entry → Type 0) (c : Config) (p : Policy) (prefer_left : Bool) (best : Option Entry)
    (e : Entry)
    → OnSome P best
    → P e
    → OnSome P (keep_better c p prefer_left best e)
unfolding keep_better
keep_better_either P c p prefer_left none e h k = ground arith
keep_better_either P c p prefer_left (some b) e h k = ground arith

scan_global_among :
    (P : Entry → Type 0) (c : Config) (p : Policy) (prefer_left : Bool) (best : Option Entry)
    (es : List Entry)
    → OnSome P best
    → All P es
    → OnSome P (scan_global c p prefer_left best es)
unfolding scan_global
scan_global_among P c p prefer_left best [] h k = h
scan_global_among P c p prefer_left best (e ∷ es) h k =
    scan_global_among P c p prefer_left (keep_better c p prefer_left best e) es
      (keep_better_either P c p prefer_left best e h k.0) k.1

scan_layer_among :
    (P : Entry → Type 0) (best : Option Entry) (es : List Entry)
    → OnSome P best
    → All P es
    → OnSome P (scan_layer best es)
unfolding scan_layer
scan_layer_among P best [] h k = h
scan_layer_among P none (e ∷ es) h k = scan_layer_among P (some e) es k.0 k.1
scan_layer_among P (some b) (e ∷ es) h k = elim (Bool-cases (layer_victim_before e b)) [
  | inl t ↦ rw (t, scan_layer) (scan_layer_among P (some e) es k.0 k.1)
  | inr t ↦ rw (t, scan_layer) (scan_layer_among P (some b) es h k.1)
]

choose_victim-IsResident :
    (c : Cache) (layer : ℤ) → OnSome (IsResident c.store.entries) (choose_victim c layer)
unfolding choose_victim
choose_victim-IsResident c layer =
    OnSome-if (IsResident c.store.entries) c.config.global_capacity_pool _ _
      (scan_global_among (IsResident c.store.entries) c.config c.policy
        (prefer_left_layer_eviction c.config c.policy) none
        (resolve c.store.entries c.store.eviction_entries) tt
        (resolve-IsResident c.store.entries c.store.eviction_entries))
      (scan_layer_among (IsResident c.store.entries) none
        (resolve c.store.entries (value_or [] (c.store.layer_entries layer))) tt
        (resolve-IsResident c.store.entries (value_or [] (c.store.layer_entries layer))))

chosen-IsResident :
    (c : Cache) (layer : ℤ) (e : Entry)
    → choose_victim c layer ≡ some e
    → IsResident c.store.entries e
chosen-IsResident c layer e h = rw h at (choose_victim-IsResident c layer)

-- An entry that the loop hands on for reuse: out of the resident set, and once in it.
abbrev pub IsFree : Cache → Entry → Type 0
IsFree c e =
    (deref c.store.entries e.address ≡ none)
    × (e.address < c.store.next_address)
    × (is_busy e ≡ false)

-- What the loop owes from a cache on, for each of its ends.
abbrev pub Makes : Bool → Float32 → ℤ → ℕ → Cache → Room → Type 0
Makes speculative confidence layer required c (room c' recycled) =
    Trimmed speculative confidence c c'
    × (has_room c'.config c'.store layer required ≡ true)
    × OnSome (IsFree c') recycled
Makes speculative confidence layer required c (no_room c') = Trimmed speculative confidence c c'
Makes speculative confidence layer required c exhausted = ⊥

Makes-trans :
    (speculative : Bool) (confidence : Float32) (layer : ℤ) (required : ℕ) (a b : Cache) (r : Room)
    → Trimmed speculative confidence a b
    → Makes speculative confidence layer required b r
    → Makes speculative confidence layer required a r
Makes-trans speculative confidence layer required a b (room c' recycled) t m =
    (Trimmed-trans speculative confidence a b c' t m.0, m.1, m.2)
Makes-trans speculative confidence layer required a b (no_room c') t m =
    Trimmed-trans speculative confidence a b c' t m
Makes-trans speculative confidence layer required a b exhausted t m = m

fresh_of :
    (n : ℕ) (es : List Entry) (p : ℕ) (e : Entry)
    → All (λ x. x.address < n) es
    → deref es p ≡ some e
    → e.address < n
unfolding deref
fresh_of n [] p e h k = ground arith
fresh_of n (x ∷ es) p e h k = ground (arith, fresh_of n es p e)

IsFree-stays :
    (speculative : Bool) (confidence : Float32) (a b : Cache) (e : Entry)
    → Trimmed speculative confidence a b
    → IsFree a e
    → IsFree b e
IsFree-stays speculative confidence a b e t f =
    (t.none_appear e.address f.0, rw t.next_address f.1, f.2)

first_removed-IsFree :
    (speculative : Bool) (confidence : Float32) (a b : Cache) (recycled : Option Entry) (e : Entry)
    → Trimmed speculative confidence a b
    → OnSome (IsFree a) recycled
    → IsFree b e
    → OnSome (IsFree b) (first_removed recycled e)
first_removed-IsFree speculative confidence a b none e t f g = g
first_removed-IsFree speculative confidence a b (some r) e t f g =
    IsFree-stays speculative confidence a b r t f

module _ (fuel : ℕ) (c : Cache) (layer : ℤ) (required : ℕ) (speculative : Bool)
    (confidence : Float32) (recycled : Option Entry) (v : IsConsistent c.store)
    (enough : length c.store.entries < suc fuel) (free : OnSome (IsFree c) recycled)
    (victim : Entry) (resident : IsResident c.store.entries victim)
    (idle : is_protected c.policy speculative confidence victim ≡ false) where
  -- One eviction: how the loop goes on, from a cache that it may go on from.
  one_eviction :
      (c' : Cache) × (remove_entry c victim.address true ≡ some (c', victim))
      × Trimmed speculative confidence c c'
      × (length c'.store.entries < fuel)
      × OnSome (IsFree c') (first_removed recycled victim)
  unfolding after_removal unlink is_protected
  one_eviction =
      let not_busy : is_busy victim ≡ false = ground arith in
      let (ps, n, hl, hb, done) = remove_entry_found c true victim v resident not_busy in
      let t = removal-Trimmed speculative confidence c v victim resident idle ps hl n hb in
      let gone = deref-erase_entry_self victim.address c.store.entries v.distinct in
      let low =
        fresh_of c.store.next_address c.store.entries victim.address victim v.fresh resident in
      let fewer = length-erase_entry victim.address c.store.entries victim resident in
      (
        after_removal c victim true ps n,
        done,
        t,
        omega (arith, fewer, enough),
        first_removed-IsFree speculative confidence c (after_removal c victim true ps n) recycled
            victim t free (gone, low, not_busy),
      )

pub make_room-Makes :
    (fuel : ℕ) (c : Cache) (layer : ℤ) (required : ℕ) (speculative : Bool) (confidence : Float32)
    (recycled : Option Entry)
    → IsConsistent c.store
    → length c.store.entries < fuel
    → OnSome (IsFree c) recycled
    → Makes speculative confidence layer required c
        (make_room fuel c layer required speculative confidence recycled)
unfolding make_room
make_room-Makes zero c layer required speculative confidence recycled v enough free =
    absurd (omega arith)
make_room-Makes (suc fuel) c layer required speculative confidence recycled v enough free =
    elim (Bool-cases (has_room c.config c.store layer required)) [
      | inl h ↦ rw (h, make_room) (Trimmed-refl speculative confidence c v, h, free)
      | inr full ↦ elim (Option-cases (choose_victim c layer)) [
        | inl nobody ↦ rw (full, make_room, nobody) (Trimmed-refl speculative confidence c v)
        | inr (victim, chosen) ↦
            elim (Bool-cases (is_protected c.policy speculative confidence victim)) [
              | inl busy ↦
                  rw (full, make_room, chosen, busy) (Trimmed-refl speculative confidence c v)
              | inr idle ↦
                  let resident = chosen-IsResident c layer victim chosen in
                  let (c', removed, t, fewer, free') =
                    one_eviction fuel c layer required speculative confidence recycled v enough free
                      victim resident idle in
                  rw (full, make_room, chosen, idle, removed)
                    (Makes-trans speculative confidence layer required c c' _ t (
                      make_room-Makes fuel c' layer required speculative confidence
                        (first_removed recycled victim) t.consistent fewer free'))
            ]
      ]
    ]
