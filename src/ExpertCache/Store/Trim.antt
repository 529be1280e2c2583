-- ===== src/ExpertCache/Store/Trim.antt =====
-- What evictions leave alone.
use palm_infra.Common.{
  ℕ, ◌≤◌, ◌==◌, Bool, true, false, none, some, List, [], ◌∷◌, ℤ, int_eq, int_eq_iff, ◌≡◌, refl, ◌∙◌,
  ap, arith, Bool-cases, inl, inr, Float32, All,
}
use palm_infra.ExpertCache.State.{Entry, Cache, Policy, entry_layer, deref, value_or}
use palm_infra.ExpertCache.Remove.{erase_entry, unlink, count_eviction_of, note_eviction}
use palm_infra.ExpertCache.Eviction.{may_displace, is_protected}
use palm_infra.ExpertCache.Store.{addresses, IsDistinct, IsConsistent}
use palm_infra.ExpertCache.Store.Erase.{holds-addresses, deref-erase_entry_ne, All-erase_entry}
use palm_infra.ExpertCache.Store.Removal.{unlink-IsConsistent, after_removal}

-- What holds of the cache after evictions on behalf of a read.
pub record Trimmed (speculative : Bool) (confidence : Float32) (c c' : Cache) : Type 0 where
  pub consistent : IsConsistent c'.store
  pub config : c'.config ≡ c.config
  pub queues : c'.queues ≡ c.queues
  pub arena : c'.store.resident_arena ≡ c.store.resident_arena
  pub next_address : c'.store.next_address ≡ c.store.next_address
  pub epoch : c'.policy.forward_epoch ≡ c.policy.forward_epoch
  pub active : c'.policy.active_layer ≡ c.policy.active_layer
  pub clock : c'.policy.clock ≡ c.policy.clock
  pub protected_stay :
      (q : ℕ) (e : Entry)
      → deref c.store.entries q ≡ some e
      → is_protected c.policy speculative confidence e ≡ true
      → deref c'.store.entries q ≡ some e
  pub none_appear : (q : ℕ) → deref c.store.entries q ≡ none → deref c'.store.entries q ≡ none
  pub subset :
      (f : Entry → Bool)
      → All (λ e. f e ≡ true) c.store.entries
      → All (λ e. f e ≡ true) c'.store.entries
  pub resident : c'.store.resident_bytes ≤ c.store.resident_bytes
  pub layer_resident :
      (l : ℤ)
      → value_or 0 (c'.store.layer_resident_bytes l) ≤ value_or 0 (c.store.layer_resident_bytes l)

may_displace_same :
    (p q : Policy) (e : Entry) (confidence : Float32)
    → p.forward_epoch ≡ q.forward_epoch
    → p.active_layer ≡ q.active_layer
    → may_displace p e confidence ≡ may_displace q e confidence
unfolding may_displace
may_displace_same p q e confidence h k = rw (h, k)

pub is_protected_same :
    (p q : Policy) (speculative : Bool) (confidence : Float32) (e : Entry)
    → p.forward_epoch ≡ q.forward_epoch
    → p.active_layer ≡ q.active_layer
    → is_protected p speculative confidence e ≡ is_protected q speculative confidence e
unfolding is_protected
is_protected_same p q speculative confidence e h k = rw (may_displace_same p q e confidence h k)

pub Trimmed-refl :
    (speculative : Bool) (confidence : Float32) (c : Cache)
    → IsConsistent c.store
    → Trimmed speculative confidence c c
Trimmed-refl speculative confidence c v = record {
  consistent = v;
  config = refl;
  queues = refl;
  arena = refl;
  next_address = refl;
  epoch = refl;
  active = refl;
  clock = refl;
  protected_stay = λ q e h k. h;
  none_appear = λ q h. h;
  subset = λ f h. h;
  resident = omega arith;
  layer_resident = λ l. omega arith;
}

pub Trimmed-trans :
    (speculative : Bool) (confidence : Float32) (a b c : Cache)
    → Trimmed speculative confidence a b
    → Trimmed speculative confidence b c
    → Trimmed speculative confidence a c
Trimmed-trans speculative confidence a b c r t = record {
  consistent = t.consistent;
  config = t.config ∙ r.config;
  queues = t.queues ∙ r.queues;
  arena = t.arena ∙ r.arena;
  next_address = t.next_address ∙ r.next_address;
  epoch = t.epoch ∙ r.epoch;
  active = t.active ∙ r.active;
  clock = t.clock ∙ r.clock;
  protected_stay = λ q e h k.
      t.protected_stay q e (r.protected_stay q e h k)
        (is_protected_same b.policy a.policy speculative confidence e r.epoch r.active ∙ k);
  none_appear = λ q h. t.none_appear q (r.none_appear q h);
  subset = λ f h. t.subset f (r.subset f h);
  resident = omega (arith, r.resident, t.resident);
  layer_resident = λ l. omega (arith, r.layer_resident l, t.layer_resident l);
}

deref-erase_entry-none :
    (q p : ℕ) (es : List Entry) → deref es q ≡ none → deref (erase_entry p es) q ≡ none
unfolding deref erase_entry
deref-erase_entry-none q p [] h = refl
deref-erase_entry-none q p (x ∷ es) h = ground (arith, deref-erase_entry-none q p es)

-- An erased address is gone.
pub deref-erase_entry_self :
    (p : ℕ) (es : List Entry) → IsDistinct (addresses es) → deref (erase_entry p es) p ≡ none
unfolding deref erase_entry
deref-erase_entry_self p [] d = refl
deref-erase_entry_self p (x ∷ es) d =
    ground (arith, deref-erase_entry_self p es, holds-addresses x.address es)

module _ (speculative : Bool) (confidence : Float32) (c : Cache) (v : IsConsistent c.store)
    (e : Entry) (he : deref c.store.entries e.address ≡ some e)
    (idle : is_protected c.policy speculative confidence e ≡ false) (ps : List ℕ)
    (hl : c.store.layer_entries (entry_layer e) ≡ some ps) (n : ℕ)
    (hb : c.store.layer_resident_bytes (entry_layer e) ≡ some n) where
  stays :
      (q : ℕ) (x : Entry)
      → deref c.store.entries q ≡ some x
      → is_protected c.policy speculative confidence x ≡ true
      → deref (erase_entry e.address c.store.entries) q ≡ some x
  stays q x h k = elim (Bool-cases (q == e.address)) [
    | inl same ↦ absurd (ground arith)
    | inr other ↦ rw (deref-erase_entry_ne q e.address c.store.entries other) h
  ]

  layer_falls :
      (l : ℤ)
      → value_or 0 ((unlink c.store e ps n).layer_resident_bytes l)
        ≤ value_or 0 (c.store.layer_resident_bytes l)
  unfolding unlink
  layer_falls l = elim (Bool-cases (int_eq (entry_layer e) l)) [
    | inl h ↦
        let same =
          ap (λ k. value_or 0 (c.store.layer_resident_bytes k))
            ((int_eq_iff (entry_layer e) l).0 h) in
        let known = ap (value_or 0) hb in rw h (omega (arith, same, known))
    | inr h ↦ rw h (omega arith)
  ]

  pub removal-Trimmed : Trimmed speculative confidence c (after_removal c e true ps n)
  unfolding after_removal count_eviction_of note_eviction unlink
  removal-Trimmed = record {
    consistent = unlink-IsConsistent c.store v e he ps hl n hb;
    config = refl;
    queues = refl;
    arena = refl;
    next_address = refl;
    epoch = refl;
    active = refl;
    clock = refl;
    protected_stay = stays;
    none_appear = λ q h. deref-erase_entry-none q e.address c.store.entries h;
    subset = λ f h. All-erase_entry (λ x. f x ≡ true) e.address c.store.entries h;
    resident = omega arith;
    layer_resident = layer_falls;
  }
