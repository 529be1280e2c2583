-- ===== src/ExpertCache/Store.antt =====
-- The indexes of the resident set of MoeSsdCache, and how they agree.
pub mod Erase
pub mod Removal
pub mod Trim
pub mod Admitting
pub mod Reservation
pub mod Admission
pub mod Bounds
pub mod Sizes
pub mod Linking
pub mod Room
pub mod Rewriting
pub mod Calls
pub mod Walks
pub mod Requests
pub mod Progressing
pub mod Acquiring
pub mod Configuring
pub mod Registering
pub mod Retaining
pub mod Sharing
use palm_infra.Common.{
  ℕ, ◌<◌, Bool, true, false, Option, none, some, List, [], ◌∷◌, map, ℤ, int_eq, ◌≡◌, All, keep_if,
  sum_of,
}
use palm_infra.ExpertCache.State.{Entry, Store, entry_bytes, entry_layer, value_or}
use palm_infra.ExpertCache.Remove.{holds}

abbrev pub addresses : List Entry → List ℕ
addresses = map (λ e. e.address)

abbrev pub of_layer : ℤ → List Entry → List Entry
of_layer l = keep_if (λ e. int_eq (entry_layer e) l)

abbrev pub IsDistinct : List ℕ → Type 0
IsDistinct [] = Unit {0}
IsDistinct (p ∷ ps) = (holds p ps ≡ false) × IsDistinct ps

abbrev pub is_some {ℓ} : {A : Type ℓ} → Option A → Bool
is_some none = false
is_some (some a) = true

-- `eviction_entries` lists the entries in their order, each layer's vector lists those of the layer,
-- and both byte counts are the sums of the sizes.
pub record IsConsistent (s : Store) : Type 0 where
  pub distinct : IsDistinct (addresses s.entries)
  pub fresh : All (λ e. e.address < s.next_address) s.entries
  pub order : s.eviction_entries ≡ addresses s.entries
  pub by_layer : (l : ℤ) → value_or [] (s.layer_entries l) ≡ addresses (of_layer l s.entries)
  pub paired : (l : ℤ) → is_some (s.layer_entries l) ≡ is_some (s.layer_resident_bytes l)
  pub total : s.resident_bytes ≡ sum_of entry_bytes s.entries
  pub layer_total :
      (l : ℤ) → value_or 0 (s.layer_resident_bytes l) ≡ sum_of entry_bytes (of_layer l s.entries)
