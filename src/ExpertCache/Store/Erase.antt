-- ===== src/ExpertCache/Store/Erase.antt =====
-- Erasing one entry from a list of entries and from the lists of pointers to them.
use palm_infra.Common.{
  ℕ, suc, ◌+◌, ◌==◌, true, false, if◌then◌else◌, some, List, [], ◌∷◌, ℤ, int_eq, ◌≡◌, refl, arith,
  All, sum_of, length, Bool-cases, inl, inr,
}
use palm_infra.ExpertCache.State.{Entry, entry_layer, deref}
use palm_infra.ExpertCache.Remove.{holds, erase_pointer, erase_entry}
use palm_infra.ExpertCache.Store.{addresses, of_layer, IsDistinct, is_some}

pub holds-addresses : (p : ℕ) (es : List Entry) → holds p (addresses es) ≡ is_some (deref es p)
unfolding deref
holds-addresses p [] = refl
holds-addresses p (e ∷ es) = ground (arith, holds-addresses p es)

pub addresses-erase_entry :
    (p : ℕ) (es : List Entry) → addresses (erase_entry p es) ≡ erase_pointer p (addresses es)
unfolding erase_entry erase_pointer
addresses-erase_entry p [] = refl
addresses-erase_entry p (e ∷ es) = ground (arith, addresses-erase_entry p es)

pub deref-address : (p : ℕ) (es : List Entry) (e : Entry) → deref es p ≡ some e → e.address ≡ p
unfolding deref
deref-address p [] e h = ground arith
deref-address p (x ∷ es) e h = ground (arith, deref-address p es e)

pub sum-erase_entry :
    (f : Entry → ℕ) (p : ℕ) (es : List Entry) (e : Entry)
    → deref es p ≡ some e
    → sum_of f es ≡ f e + sum_of f (erase_entry p es)
unfolding deref erase_entry
sum-erase_entry f p [] e h = ground arith
sum-erase_entry f p (x ∷ es) e h = ground (arith, sum-erase_entry f p es e)

pub length-erase_entry :
    (p : ℕ) (es : List Entry) (e : Entry)
    → deref es p ≡ some e
    → length es ≡ suc (length (erase_entry p es))
unfolding deref erase_entry
length-erase_entry p [] e h = ground arith
length-erase_entry p (x ∷ es) e h = ground (arith, length-erase_entry p es e)

pub deref-of_layer :
    (l : ℤ) (p : ℕ) (es : List Entry) (e : Entry)
    → deref es p ≡ some e
    → int_eq (entry_layer e) l ≡ true
    → deref (of_layer l es) p ≡ some e
unfolding deref
deref-of_layer l p [] e h k = h
deref-of_layer l p (x ∷ es) e h k = ground (arith, deref-of_layer l p es e)

pub of_layer-erase_entry :
    (l : ℤ) (p : ℕ) (es : List Entry) (e : Entry)
    → deref es p ≡ some e
    → of_layer l (erase_entry p es)
      ≡ (if int_eq (entry_layer e) l then erase_entry p (of_layer l es) else of_layer l es)
unfolding deref erase_entry
of_layer-erase_entry l p [] e h = ground arith
of_layer-erase_entry l p (x ∷ es) e h = ground (arith, of_layer-erase_entry l p es e)

pub All-erase_entry :
    (P : Entry → Type 0) (p : ℕ) (es : List Entry) → All P es → All P (erase_entry p es)
unfolding erase_entry
All-erase_entry P p [] h = tt
All-erase_entry P p (x ∷ es) h = elim (Bool-cases (x.address == p)) [
  | inl e ↦ rw (e, erase_entry) h.1
  | inr e ↦ rw (e, erase_entry) (h.0, All-erase_entry P p es h.1)
]

holds-erase_pointer :
    (q p : ℕ) (ps : List ℕ) → holds q ps ≡ false → holds q (erase_pointer p ps) ≡ false
unfolding erase_pointer
holds-erase_pointer q p [] h = refl
holds-erase_pointer q p (x ∷ ps) h = ground (arith, holds-erase_pointer q p ps)

pub erase_pointer-IsDistinct :
    (p : ℕ) (ps : List ℕ) → IsDistinct ps → IsDistinct (erase_pointer p ps)
unfolding erase_pointer
erase_pointer-IsDistinct p [] h = tt
erase_pointer-IsDistinct p (x ∷ ps) h =
    ground (arith, holds-erase_pointer x p ps, erase_pointer-IsDistinct p ps)

-- Other entries stay where they are.
pub deref-erase_entry_ne :
    (q p : ℕ) (es : List Entry) → (q == p) ≡ false → deref (erase_entry p es) q ≡ deref es q
unfolding deref erase_entry
deref-erase_entry_ne q p [] h = refl
deref-erase_entry_ne q p (x ∷ es) h = ground (arith, deref-erase_entry_ne q p es)
