-- ===== src/ExpertCache/Store/Rewriting.antt =====
-- Writes to entries that keep their addresses, layers and sizes, and the indexes after them.
use palm_infra.Common.{
  ℕ, ◌<◌, ◌==◌, true, false, List, [], ◌∷◌, ℤ, int_eq, ◌≡◌, refl, sym, ◌∙◌, ap, arith, All, sum_of,
  Bool-cases, inl, inr,
}
use palm_infra.ExpertCache.State.{
  Entry, Store, Cache, Policy, Counters, Queues, entry_bytes, entry_layer,
}
use palm_infra.ExpertCache.Io.{modify}
use palm_infra.ExpertCache.Store.{addresses, of_layer, IsConsistent}
use palm_infra.ExpertCache.Store.Bounds.{has_layer}
use palm_infra.ExpertCache.Store.Admission.{IsWellFormed}

-- The second entry is the first one at the same place, of the same layer and size.
abbrev pub IsAlike : Entry → Entry → Type 0
IsAlike e e' =
    (e'.address ≡ e.address) × (entry_layer e' ≡ entry_layer e) × (entry_bytes e' ≡ entry_bytes e)

abbrev pub AllAlike : List Entry → List Entry → Type 0
AllAlike [] [] = Unit {0}
AllAlike [] (e' ∷ es') = ⊥
AllAlike (e ∷ es) [] = ⊥
AllAlike (e ∷ es) (e' ∷ es') = IsAlike e e' × AllAlike es es'

pub AllAlike-refl : (es : List Entry) → AllAlike es es
AllAlike-refl [] = tt
AllAlike-refl (e ∷ es) = ((refl, refl, refl), AllAlike-refl es)

pub modify-AllAlike :
    (p : ℕ) (f : Entry → Entry) (es : List Entry)
    → ((e : Entry) → IsAlike e (f e))
    → AllAlike es (modify p f es)
unfolding modify
modify-AllAlike p f [] h = tt
modify-AllAlike p f (e ∷ es) h = elim (Bool-cases (e.address == p)) [
  | inl here ↦ rw here (h e, AllAlike-refl es)
  | inr past ↦ rw past ((refl, refl, refl), modify-AllAlike p f es h)
]

addresses-AllAlike : (es es' : List Entry) → AllAlike es es' → addresses es' ≡ addresses es
addresses-AllAlike [] [] h = refl
addresses-AllAlike [] (e' ∷ es') h = absurd h
addresses-AllAlike (e ∷ es) [] h = absurd h
addresses-AllAlike (e ∷ es) (e' ∷ es') h = rw (h.0.0, addresses-AllAlike es es' h.1) refl

of_layer-AllAlike :
    (l : ℤ) (es es' : List Entry) → AllAlike es es' → AllAlike (of_layer l es) (of_layer l es')
of_layer-AllAlike l [] [] h = tt
of_layer-AllAlike l [] (e' ∷ es') h = absurd h
of_layer-AllAlike l (e ∷ es) [] h = absurd h
of_layer-AllAlike l (e ∷ es) (e' ∷ es') h = elim (Bool-cases (int_eq (entry_layer e) l)) [
  | inl here ↦
      let here' : int_eq (entry_layer e') l ≡ true = ap (λ k. int_eq k l) h.0.1 ∙ here in
      rw (here, here') (h.0, of_layer-AllAlike l es es' h.1)
  | inr other ↦
      let other' : int_eq (entry_layer e') l ≡ false = ap (λ k. int_eq k l) h.0.1 ∙ other in
      rw (other, other') (of_layer-AllAlike l es es' h.1)
]

sum-AllAlike :
    (es es' : List Entry) → AllAlike es es' → sum_of entry_bytes es' ≡ sum_of entry_bytes es
sum-AllAlike [] [] h = refl
sum-AllAlike [] (e' ∷ es') h = absurd h
sum-AllAlike (e ∷ es) [] h = absurd h
sum-AllAlike (e ∷ es) (e' ∷ es') h = rw (h.0.2, sum-AllAlike es es' h.1) refl

below-AllAlike :
    (n : ℕ) (es es' : List Entry)
    → AllAlike es es'
    → All (λ e. e.address < n) es
    → All (λ e. e.address < n) es'
below-AllAlike n [] [] h b = tt
below-AllAlike n [] (e' ∷ es') h b = absurd h
below-AllAlike n (e ∷ es) [] h b = absurd h
below-AllAlike n (e ∷ es) (e' ∷ es') h b =
    (omega (arith, h.0.0, b.0), below-AllAlike n es es' h.1 b.1)

known-AllAlike :
    (ls : List ℤ) (es es' : List Entry)
    → AllAlike es es'
    → All (λ e. has_layer (entry_layer e) ls ≡ true) es
    → All (λ e. has_layer (entry_layer e) ls ≡ true) es'
known-AllAlike ls [] [] h b = tt
known-AllAlike ls [] (e' ∷ es') h b = absurd h
known-AllAlike ls (e ∷ es) [] h b = absurd h
known-AllAlike ls (e ∷ es) (e' ∷ es') h b =
    (ap (λ k. has_layer k ls) h.0.1 ∙ b.0, known-AllAlike ls es es' h.1 b.1)

-- The cache with other entries in the same places, another policy, other counters and queues.
abbrev pub rewritten : Cache → List Entry → Policy → Counters → Queues → Cache
rewritten c es' p k q = record c {
  store = record c.store { entries = es' };
  policy = p;
  counters = k;
  queues = q;
}

pub rewritten-IsConsistent :
    (s : Store) (es' : List Entry)
    → AllAlike s.entries es'
    → IsConsistent s
    → IsConsistent (record s { entries = es' })
rewritten-IsConsistent s es' h v =
    let same = addresses-AllAlike s.entries es' h in
    record {
      distinct = rw same v.distinct;
      fresh = below-AllAlike s.next_address s.entries es' h v.fresh;
      order = v.order ∙ sym same;
      by_layer = λ l.
          v.by_layer l
          ∙ sym (
              addresses-AllAlike (of_layer l s.entries) (of_layer l es')
                (of_layer-AllAlike l s.entries es' h));
      paired = v.paired;
      total = v.total ∙ sym (sum-AllAlike s.entries es' h);
      layer_total = λ l.
          v.layer_total l
          ∙ sym (
              sum-AllAlike (of_layer l s.entries) (of_layer l es')
                (of_layer-AllAlike l s.entries es' h));
    }

pub rewritten-IsWellFormed :
    (c : Cache) (es' : List Entry) (p : Policy) (k : Counters) (q : Queues)
    → AllAlike c.store.entries es'
    → IsWellFormed c
    → IsWellFormed (rewritten c es' p k q)
unfolding palm_infra.ExpertCache.Eviction.used_for
rewritten-IsWellFormed c es' p k q h w = record {
  consistent = rewritten-IsConsistent c.store es' h w.consistent;
  bounded = record {
    within = λ l. w.bounded.within l;
    known = known-AllAlike c.config.layers c.store.entries es' h w.bounded.known;
    quotas = w.bounded.quotas;
  };
}
