-- ===== src/ExpertCache/Store/Removal.antt =====
-- remove_entry_locked of cache.cpp and the indexes that it takes an entry out of.
use palm_infra.Common.{
  ℕ, ◌≤◌, Bool, true, false, if◌then◌else◌, Option, some, List, [], ℤ, int_eq, int_eq_iff,
  int_eq_refl, ◌≡◌, refl, sym, ◌∙◌, ap, arith, sum_of, Bool-cases, Option-cases, inl, inr,
}
use palm_infra.ExpertCache.State.{Entry, Store, Cache, entry_bytes, entry_layer, deref, value_or}
use palm_infra.ExpertCache.Victim.{is_busy}
use palm_infra.ExpertCache.Remove.{
  holds, erase_pointer, unlink, count_eviction_of, note_eviction, remove_entry,
}
use palm_infra.ExpertCache.Store.{addresses, of_layer, is_some, IsConsistent}
use palm_infra.ExpertCache.Store.Erase.{
  holds-addresses, addresses-erase_entry, sum-erase_entry, deref-of_layer, of_layer-erase_entry,
  All-erase_entry, erase_pointer-IsDistinct,
}

value_or-some {ℓ} : {A : Type ℓ} (d : A) (o : Option A) (a : A) → o ≡ some a → value_or d o ≡ a
value_or-some d o a h = rw h

module _ (s : Store) (v : IsConsistent s) (e : Entry) (he : deref s.entries e.address ≡ some e)
    (in_layer : List ℕ) (hl : s.layer_entries (entry_layer e) ≡ some in_layer) (layer_bytes : ℕ)
    (hb : s.layer_resident_bytes (entry_layer e) ≡ some layer_bytes) where
  same_layer : (l : ℤ) → int_eq (entry_layer e) l ≡ true → entry_layer e ≡ l
  same_layer l h = (int_eq_iff (entry_layer e) l).0 h

  unlinked_by_layer :
      (l : ℤ)
      → value_or [] ((unlink s e in_layer layer_bytes).layer_entries l)
        ≡ addresses (of_layer l (unlink s e in_layer layer_bytes).entries)
  unfolding unlink
  unlinked_by_layer l = elim (Bool-cases (int_eq (entry_layer e) l)) [
    | inl h ↦
        rw (h, of_layer-erase_entry l e.address s.entries e he, h)
          (rw (addresses-erase_entry e.address (of_layer l s.entries)) (
            ap (erase_pointer e.address) (
              sym (value_or-some [] (s.layer_entries (entry_layer e)) in_layer hl)
              ∙ ap (λ k. value_or [] (s.layer_entries k)) (same_layer l h)
              ∙ v.by_layer l)))
    | inr h ↦ rw (h, of_layer-erase_entry l e.address s.entries e he, h) (v.by_layer l)
  ]

  unlinked_layer_total :
      (l : ℤ)
      → value_or 0 ((unlink s e in_layer layer_bytes).layer_resident_bytes l)
        ≡ sum_of entry_bytes (of_layer l (unlink s e in_layer layer_bytes).entries)
  unfolding unlink
  unlinked_layer_total l = elim (Bool-cases (int_eq (entry_layer e) l)) [
    | inl h ↦
        let total =
          sym (value_or-some 0 (s.layer_resident_bytes (entry_layer e)) layer_bytes hb)
          ∙ ap (λ k. value_or 0 (s.layer_resident_bytes k)) (same_layer l h)
          ∙ v.layer_total l in
        let found = deref-of_layer l e.address s.entries e he h in
        rw (h, of_layer-erase_entry l e.address s.entries e he, h)
          (omega
            (arith, total, sum-erase_entry entry_bytes e.address (of_layer l s.entries) e found))
    | inr h ↦ rw (h, of_layer-erase_entry l e.address s.entries e he, h) (v.layer_total l)
  ]

  unlinked_paired :
      (l : ℤ)
      → is_some ((unlink s e in_layer layer_bytes).layer_entries l)
        ≡ is_some ((unlink s e in_layer layer_bytes).layer_resident_bytes l)
  unfolding unlink
  unlinked_paired l = ground (arith, v.paired l)

  pub unlink-IsConsistent : IsConsistent (unlink s e in_layer layer_bytes)
  unfolding unlink
  unlink-IsConsistent = record {
    distinct =
        rw (addresses-erase_entry e.address s.entries)
          (erase_pointer-IsDistinct e.address (addresses s.entries) v.distinct);
    fresh = All-erase_entry _ e.address s.entries v.fresh;
    order = rw (v.order, addresses-erase_entry e.address s.entries);
    by_layer = unlinked_by_layer;
    paired = unlinked_paired;
    total = omega (arith, v.total, sum-erase_entry entry_bytes e.address s.entries e he);
    layer_total = unlinked_layer_total;
  }

-- The index entries that removal looks up are there.
module _ (s : Store) (v : IsConsistent s) (e : Entry)
    (he : deref s.entries e.address ≡ some e) where
  layer_found : deref (of_layer (entry_layer e) s.entries) e.address ≡ some e
  layer_found =
      deref-of_layer (entry_layer e) e.address s.entries e he (int_eq_refl (entry_layer e))

  held_in_layer : holds e.address (value_or [] (s.layer_entries (entry_layer e))) ≡ true
  held_in_layer =
      rw
        (
          v.by_layer (entry_layer e),
          holds-addresses e.address (of_layer (entry_layer e) s.entries),
          layer_found,
        )
        refl

  pub held_in_order : holds e.address s.eviction_entries ≡ true
  held_in_order = rw (v.order, holds-addresses e.address s.entries, he) refl

  pub layer_known :
      (ps : List ℕ) × (n : ℕ) × (s.layer_entries (entry_layer e) ≡ some ps)
      × (s.layer_resident_bytes (entry_layer e) ≡ some n)
      × (holds e.address ps ≡ true)
  layer_known = elim (Option-cases (s.layer_entries (entry_layer e))) [
    | inl missing ↦ absurd (ground (arith, held_in_layer))
    | inr (ps, found) ↦ elim (Option-cases (s.layer_resident_bytes (entry_layer e))) [
      | inl missing ↦ absurd (ground (arith, v.paired (entry_layer e)))
      | inr (n, counted) ↦ (ps, n, found, counted, ground (arith, held_in_layer))
    ]
  ]

  pub bytes-le-resident : entry_bytes e ≤ s.resident_bytes
  bytes-le-resident = omega (arith, v.total, sum-erase_entry entry_bytes e.address s.entries e he)

  pub bytes-le-layer : entry_bytes e ≤ value_or 0 (s.layer_resident_bytes (entry_layer e))
  bytes-le-layer = omega (
    arith,
    v.layer_total (entry_layer e),
    sum-erase_entry entry_bytes e.address (of_layer (entry_layer e) s.entries) e layer_found,
  )

-- The cache after the removal of an entry, given what its layer's indexes hold.
unfoldable pub after_removal : Cache → Entry → Bool → List ℕ → ℕ → Cache
after_removal c e count_eviction in_layer layer_bytes =
    if count_eviction
    then record c {
      store = unlink c.store e in_layer layer_bytes;
      counters = count_eviction_of c.counters e;
      policy = note_eviction c.policy e;
    }
    else record c { store = unlink c.store e in_layer layer_bytes }

pub remove_entry_found :
    (c : Cache) (count_eviction : Bool) (e : Entry)
    → IsConsistent c.store
    → deref c.store.entries e.address ≡ some e
    → is_busy e ≡ false
    → (ps : List ℕ) × (n : ℕ) × (c.store.layer_entries (entry_layer e) ≡ some ps)
      × (c.store.layer_resident_bytes (entry_layer e) ≡ some n)
      × (remove_entry c e.address count_eviction ≡ some (after_removal c e count_eviction ps n, e))
unfolding remove_entry after_removal
remove_entry_found c count_eviction e v he idle =
    let (ps, n, hl, hb, held) = layer_known c.store v e he in
    (
      ps,
      n,
      hl,
      hb,
      ground (
        arith,
        held_in_order c.store v e he,
        bytes-le-resident c.store v e he,
        bytes-le-layer c.store v e he,
      ),
    )
