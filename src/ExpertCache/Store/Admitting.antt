-- ===== src/ExpertCache/Store/Admitting.antt =====
-- Linking a sized entry, and how reservations compose.
use palm_infra.Common.{
  ℕ, ◌≤◌, ◌<◌, Bool, true, false, Option, none, some, List, [], ◌∷◌, ◌++◌, ℤ, ◌≡◌, refl, sym, ◌∙◌,
  ap, arith, All, word_max, Float32,
}
use palm_infra.ExpertCache.Spec.{TensorSource}
use palm_infra.ExpertCache.State.{Arena, Entry, Cache, Policy, deref}
use palm_infra.ExpertCache.Victim.{is_busy}
use palm_infra.ExpertCache.Buffers.{resize_all_in_arena}
use palm_infra.ExpertCache.Eviction.{used_for, has_room}
use palm_infra.ExpertCache.Reserve.{prepare, link, link_sized, admit_base}
use palm_infra.ExpertCache.Store.Sizes.{
  OnSome, pair_sum, IsSizing, resize_all-IsSizing, resize_all_in_arena-IsSizing,
}
use palm_infra.ExpertCache.Store.Linking.{deref-snoc_old, deref-snoc_new}
use palm_infra.ExpertCache.Store.Trim.{Trimmed, is_protected_same}
use palm_infra.ExpertCache.Store.Bounds.{has_layer}
use palm_infra.ExpertCache.Store.Admission.{
  IsWellFormed, Trimmed-IsWellFormed, Reserved, renewed, renewed-IsConsistent, linked-IsWellFormed,
}

module _ (speculative : Bool) (confidence : Float32) (gate_up down : TensorSource) (expert : ℤ)
    (c : Cache) (w : IsWellFormed c) (required : ℕ)
    (registered : has_layer gate_up.spec.layer c.config.layers ≡ true)
    (size : pair_sum gate_up down ≤ required) (word : required ≤ word_max)
    (fits : has_room c.config c.store gate_up.spec.layer required ≡ true) where
  -- The last step: the sized entry is linked.
  sized_Reserved :
      (e e' : Entry) (next : ℕ) (arena : Option Arena)
      → IsSizing gate_up down (prepare c.policy e gate_up down expert speculative confidence) e'
      → c.store.next_address ≤ next
      → e.address < next
      → deref c.store.entries e.address ≡ none
      → e.pins ≡ 0
      → (p : Policy) → p.forward_epoch ≡ c.policy.forward_epoch
      → p.active_layer ≡ c.policy.active_layer
      → Reserved speculative confidence gate_up down expert c
          (record c { store = link (renewed c.store next arena) e'; policy = p }, some e.address)
  unfolding prepare link
  sized_Reserved e e' next arena z later low absent unpinned p epoch active =
      let at_layer : e'.gate_up.spec.layer ≡ gate_up.spec.layer =
        ap (λ (t : TensorSource). t.spec.layer) z.gate_up in
      let absent' : deref c.store.entries e'.address ≡ none =
        ap (deref c.store.entries) z.address ∙ absent in
      record {
        well_formed =
            linked-IsWellFormed c w e' next arena required later (omega (arith, z.address)) absent'
              (ap (λ l. has_layer l c.config.layers) at_layer ∙ registered) (omega (arith, z.bytes))
              (ap (λ l. has_room c.config c.store l required) at_layer ∙ fits) p;
        config = refl;
        queues = refl;
        epoch = epoch;
        active = active;
        protected_stay = λ q x h k. deref-snoc_old c.store.entries e' q x h;
        admitted = (
          e',
          ap (deref (c.store.entries ++ e' ∷ [])) (sym z.address)
              ∙ deref-snoc_new c.store.entries e' absent',
          z.gate_up,
          z.down,
          z.expert,
          z.state,
          z.pins ∙ unpinned,
          z.pending_reads,
        );
      }

  -- Where the arena has no slice left, nothing is linked.
  refused_Reserved :
      (next : ℕ) (arena : Option Arena)
      → c.store.next_address ≤ next
      → (p : Policy) → p.forward_epoch ≡ c.policy.forward_epoch
      → p.active_layer ≡ c.policy.active_layer
      → Reserved speculative confidence gate_up down expert c
          (record c { store = renewed c.store next arena; policy = p }, none)
  unfolding used_for
  refused_Reserved next arena later p epoch active = record {
    well_formed = record {
      consistent = renewed-IsConsistent c.store next arena later w.consistent;
      bounded = record {
        within = w.bounded.within;
        known = w.bounded.known;
        quotas = w.bounded.quotas;
      };
    };
    config = refl;
    queues = refl;
    epoch = epoch;
    active = active;
    protected_stay = λ q x h k. h;
    admitted = tt;
  }

  -- The part past the loop, for an entry that may be linked.
  pub base_Reserved :
      (e : Entry) (next : ℕ) (o : Option Arena)
      → c.store.next_address ≤ next
      → e.address < next
      → deref c.store.entries e.address ≡ none
      → e.pins ≡ 0
      → Reserved speculative confidence gate_up down expert c
          (admit_base c gate_up down expert speculative confidence e next o)
  unfolding admit_base
  base_Reserved e next none later low absent unpinned =
      sized_Reserved e _ next none
        (resize_all-IsSizing (prepare c.policy e gate_up down expert speculative confidence) gate_up
          down (omega arith))
        later low absent unpinned _ refl refl
  base_Reserved e next (some arena) later low absent unpinned =
      by_size (resize_all_in_arena prepared gate_up down arena).0
        (resize_all_in_arena-IsSizing prepared gate_up down arena (omega arith))
    where
      prepared : Entry
      prepared = prepare c.policy e gate_up down expert speculative confidence

      arena' : Arena
      arena' = (resize_all_in_arena prepared gate_up down arena).1

      by_size :
          (o : Option Entry)
          → OnSome (IsSizing gate_up down prepared) o
          → Reserved speculative confidence gate_up down expert c
              (link_sized c e next (some arena') o)
      by_size none z = refused_Reserved next (some arena') later _ refl refl
      by_size (some e') z =
          sized_Reserved e e' next (some arena') z later low absent unpinned _ refl refl

pub deref_fresh : (n : ℕ) (es : List Entry) → All (λ e. e.address < n) es → deref es n ≡ none
unfolding deref
deref_fresh n [] h = refl
deref_fresh n (e ∷ es) h = ground (arith, deref_fresh n es)

pub unpinned_of_idle : (e : Entry) → is_busy e ≡ false → e.pins ≡ 0
unfolding is_busy
unpinned_of_idle e h = ground arith

pub Reserved-trans :
    (speculative : Bool) (confidence : Float32) (gate_up down : TensorSource) (expert : ℤ)
    (a b : Cache) (r : Cache × Option ℕ)
    → Trimmed speculative confidence a b
    → Reserved speculative confidence gate_up down expert b r
    → Reserved speculative confidence gate_up down expert a r
Reserved-trans speculative confidence gate_up down expert a b r t s = record {
  well_formed = s.well_formed;
  config = s.config ∙ t.config;
  queues = s.queues ∙ t.queues;
  epoch = s.epoch ∙ t.epoch;
  active = s.active ∙ t.active;
  protected_stay = λ q e h k.
      s.protected_stay q e (t.protected_stay q e h k)
        (is_protected_same b.policy a.policy speculative confidence e t.epoch t.active ∙ k);
  admitted = s.admitted;
}

pub Trimmed-Reserved :
    (speculative : Bool) (confidence : Float32) (gate_up down : TensorSource) (expert : ℤ)
    (a b : Cache)
    → IsWellFormed a
    → Trimmed speculative confidence a b
    → Reserved speculative confidence gate_up down expert a (b, none)
Trimmed-Reserved speculative confidence gate_up down expert a b w t = record {
  well_formed = Trimmed-IsWellFormed speculative confidence a b t w;
  config = t.config;
  queues = t.queues;
  epoch = t.epoch;
  active = t.active;
  protected_stay = t.protected_stay;
  admitted = tt;
}
