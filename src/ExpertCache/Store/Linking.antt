-- ===== src/ExpertCache/Store/Linking.antt =====
-- A new entry in the indexes of the resident set.
use mathlib.Core.List.{map-append}
use palm_infra.Common.{
  ℕ, ◌+◌, ◌<◌, ◌==◌, true, false, ◌||◌, if◌then◌else◌, none, some, List, [], ◌∷◌, ◌++◌, ℤ, int_eq,
  int_eq_iff, ◌≡◌, refl, ◌∙◌, ap, arith, All-append, sum_of, sum_of-append, word_mod, Bool-cases,
  inl, inr,
}
use palm_infra.ExpertCache.State.{
  Entry, Store, entry_bytes, entry_layer, deref, value_or, LayerMap, put,
}
use palm_infra.ExpertCache.Remove.{holds}
use palm_infra.ExpertCache.Reserve.{link, touch_layer}
use palm_infra.ExpertCache.Store.{addresses, of_layer, is_some, IsDistinct, IsConsistent}
use palm_infra.ExpertCache.Store.Erase.{holds-addresses}

of_layer-snoc :
    (l : ℤ) (es : List Entry) (e : Entry)
    → of_layer l (es ++ e ∷ [])
      ≡ (if int_eq (entry_layer e) l then of_layer l es ++ e ∷ [] else of_layer l es)
of_layer-snoc l [] e = ground arith
of_layer-snoc l (x ∷ es) e = ground (arith, of_layer-snoc l es e)

snoc-IsDistinct :
    (ps : List ℕ) (p : ℕ) → IsDistinct ps → holds p ps ≡ false → IsDistinct (ps ++ p ∷ [])
snoc-IsDistinct [] p d h = (refl, tt)
snoc-IsDistinct (q ∷ ps) p d h = ground (arith, snoc-IsDistinct ps p, holds_snoc q ps p)
  where
    holds_snoc : (q : ℕ) (ps : List ℕ) (p : ℕ) → holds q (ps ++ p ∷ []) ≡ (holds q ps || p == q)
    holds_snoc q [] p = ground arith
    holds_snoc q (x ∷ ps) p = ground (arith, holds_snoc q ps p)

pub deref-snoc_old :
    (es : List Entry) (e : Entry) (p : ℕ) (x : Entry)
    → deref es p ≡ some x
    → deref (es ++ e ∷ []) p ≡ some x
unfolding deref
deref-snoc_old [] e p x h = ground arith
deref-snoc_old (y ∷ es) e p x h = ground (arith, deref-snoc_old es e p x)

pub deref-snoc_new :
    (es : List Entry) (e : Entry)
    → deref es e.address ≡ none
    → deref (es ++ e ∷ []) e.address ≡ some e
unfolding deref
deref-snoc_new [] e h = ground arith
deref-snoc_new (y ∷ es) e h = ground (arith, deref-snoc_new es e)

module _ (s : Store) (v : IsConsistent s) (e : Entry) (absent : deref s.entries e.address ≡ none)
    (low : e.address < s.next_address) (total_fits : s.resident_bytes + entry_bytes e < word_mod)
    (layer_fits : value_or 0 (s.layer_resident_bytes (entry_layer e)) + entry_bytes e
      < word_mod) where
  same_layer : (l : ℤ) → int_eq (entry_layer e) l ≡ true → entry_layer e ≡ l
  same_layer l h = (int_eq_iff (entry_layer e) l).0 h

  linked_by_layer :
      (l : ℤ) → value_or [] ((link s e).layer_entries l) ≡ addresses (of_layer l (link s e).entries)
  unfolding link
  linked_by_layer l = elim (Bool-cases (int_eq (entry_layer e) l)) [
    | inl h ↦
        rw (h, of_layer-snoc l s.entries e, h, map-append)
          (ap (λ ps. ps ++ e.address ∷ [])
            (ap (λ k. value_or [] (s.layer_entries k)) (same_layer l h) ∙ v.by_layer l))
    | inr h ↦ rw (h, of_layer-snoc l s.entries e, h) (v.by_layer l)
  ]

  linked_layer_total :
      (l : ℤ)
      → value_or 0 ((link s e).layer_resident_bytes l)
        ≡ sum_of entry_bytes (of_layer l (link s e).entries)
  unfolding link
  linked_layer_total l = elim (Bool-cases (int_eq (entry_layer e) l)) [
    | inl h ↦
        let same = ap (λ k. value_or 0 (s.layer_resident_bytes k)) (same_layer l h) in
        rw (h, of_layer-snoc l s.entries e, h)
          (omega (
            arith,
            same,
            v.layer_total l,
            layer_fits,
            sum_of-append entry_bytes (of_layer l s.entries) (e ∷ []),
          ))
    | inr h ↦ rw (h, of_layer-snoc l s.entries e, h) (v.layer_total l)
  ]

  linked_paired :
      (l : ℤ) → is_some ((link s e).layer_entries l) ≡ is_some ((link s e).layer_resident_bytes l)
  unfolding link
  linked_paired l = ground (arith, v.paired l)

  pub link-IsConsistent : IsConsistent (link s e)
  unfolding link
  link-IsConsistent = record {
    distinct = rw map-append (
        snoc-IsDistinct (addresses s.entries) e.address v.distinct
          (rw (holds-addresses e.address s.entries, absent) refl));
    fresh = All-append (λ x. x.address < s.next_address) s.entries (e ∷ []) v.fresh (low, tt);
    order = rw (v.order, map-append) refl;
    by_layer = linked_by_layer;
    paired = linked_paired;
    total = omega (arith, v.total, total_fits, sum_of-append entry_bytes s.entries (e ∷ []));
    layer_total = linked_layer_total;
  }

-- operator[] changes no value.
pub value_or-put_self {ℓ} :
    {A : Type ℓ} (d : A) (m : LayerMap A) (k l : ℤ)
    → value_or d (put m k (value_or d (m k)) l) ≡ value_or d (m l)
value_or-put_self d m k l = elim (Bool-cases (int_eq k l)) [
  | inl h ↦ rw h (ap (λ j. value_or d (m j)) ((int_eq_iff k l).0 h))
  | inr h ↦ rw h
]

pub touch_layer-IsConsistent :
    (s : Store) (layer : ℤ) → IsConsistent s → IsConsistent (touch_layer s layer)
unfolding touch_layer
touch_layer-IsConsistent s layer v = record {
  distinct = v.distinct;
  fresh = v.fresh;
  order = v.order;
  by_layer = λ l. value_or-put_self [] s.layer_entries layer l ∙ v.by_layer l;
  paired = λ l. ground (arith, v.paired l);
  total = v.total;
  layer_total = λ l. value_or-put_self 0 s.layer_resident_bytes layer l ∙ v.layer_total l;
}
