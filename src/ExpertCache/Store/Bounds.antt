-- ===== src/ExpertCache/Store/Bounds.antt =====
-- The capacity of the shared pool and of each layer, and the byte counts as words.
use palm_infra.Common.{
  ℕ, ◌+◌, ◌≤◌, ◌<◌, Bool, true, false, List, [], ◌∷◌, ℤ, int_eq, int_eq_iff, ◌≡◌, sym, ap, arith,
  All, sum_of, any_of, word_max, word_mod, Bool-cases, inl, inr,
}
use palm_infra.ExpertCache.State.{
  Entry, Store, Cache, Config, entry_bytes, entry_layer, value_or, expert_capacity_bytes,
  layer_capacity_bytes_locked,
}
use palm_infra.ExpertCache.Eviction.{capacity_for, used_for, has_room}
use palm_infra.ExpertCache.Store.{of_layer, IsConsistent}

abbrev pub has_layer : ℤ → List ℤ → Bool
has_layer l = any_of (λ k. int_eq k l)

-- The quotas of the registered layers sum up to a word.
abbrev pub IsSized : Config → Type 0
IsSized c = sum_of (layer_capacity_bytes_locked c) c.layers ≤ word_max

-- The bytes that count against a capacity never exceed it, and entries belong to registered layers.
pub record IsBounded (c : Cache) : Type 0 where
  pub within : (l : ℤ) → used_for c.config c.store l ≤ capacity_for c.config l
  pub known : All (λ e. has_layer (entry_layer e) c.config.layers ≡ true) c.store.entries
  pub quotas : IsSized c.config

abbrev layer_sum : (Entry → ℕ) → List Entry → ℤ → ℕ
layer_sum f es l = sum_of f (of_layer l es)

layers_grow :
    (f : Entry → ℕ) (e : Entry) (es : List Entry) (ls : List ℤ)
    → sum_of (layer_sum f es) ls ≤ sum_of (layer_sum f (e ∷ es)) ls
layers_grow f e es [] = omega arith
layers_grow f e es (l ∷ ls) = ground (arith, layers_grow f e es ls)

layers_grow_by :
    (f : Entry → ℕ) (e : Entry) (es : List Entry) (ls : List ℤ)
    → has_layer (entry_layer e) ls ≡ true
    → f e + sum_of (layer_sum f es) ls ≤ sum_of (layer_sum f (e ∷ es)) ls
layers_grow_by f e es [] h = ground arith
layers_grow_by f e es (l ∷ ls) h = elim (Bool-cases (int_eq (entry_layer e) l)) [
  | inl here ↦ rw here (omega (arith, layers_grow f e es ls))
  | inr other ↦
      let elsewhere : int_eq l (entry_layer e) ≡ false = int_eq_flip (entry_layer e) l other in
      rw other (omega (arith, layers_grow_by f e es ls (rw elsewhere at h)))
]
  where
    int_eq_flip : (a b : ℤ) → int_eq a b ≡ false → int_eq b a ≡ false
    int_eq_flip a b h = elim (Bool-cases (int_eq b a)) [
      | inl same ↦ absurd (ground (arith, (int_eq_iff a b).1 (sym ((int_eq_iff b a).0 same))))
      | inr other ↦ other
    ]

pub total-le-layers :
    (f : Entry → ℕ) (es : List Entry) (ls : List ℤ)
    → All (λ e. has_layer (entry_layer e) ls ≡ true) es
    → sum_of f es ≤ sum_of (layer_sum f es) ls
total-le-layers f [] ls h = omega arith
total-le-layers f (e ∷ es) ls h =
    omega (arith, total-le-layers f es ls h.1, layers_grow_by f e es ls h.0)

pub sum_mono : (u k : ℤ → ℕ) (ls : List ℤ) → ((l : ℤ) → u l ≤ k l) → sum_of u ls ≤ sum_of k ls
sum_mono u k [] h = omega arith
sum_mono u k (l ∷ ls) h = omega (arith, h l, sum_mono u k ls h)

-- Slack in one layer is slack in the sum.
sum_slack :
    (u k : ℤ → ℕ) (b : ℕ) (j : ℤ) (ls : List ℤ)
    → ((l : ℤ) → u l ≤ k l)
    → u j + b ≤ k j
    → has_layer j ls ≡ true
    → sum_of u ls + b ≤ sum_of k ls
sum_slack u k b j [] h s m = ground arith
sum_slack u k b j (l ∷ ls) h s m = elim (Bool-cases (int_eq l j)) [
  | inl here ↦
      let at_l = ap u ((int_eq_iff l j).0 here) in
      let at_l' = ap k ((int_eq_iff l j).0 here) in omega (arith, sum_mono u k ls h, at_l, at_l')
  | inr other ↦ omega (arith, h l, sum_slack u k b j ls h s (rw other at m))
]

pub has_room_sum :
    (c : Config) (s : Store) (l : ℤ) (n : ℕ)
    → has_room c s l n ≡ true
    → used_for c s l + n ≤ capacity_for c l
unfolding has_room
has_room_sum c s l n h = ground arith

has_room_pool :
    (c : Config) (s : Store) (l : ℤ) (n : ℕ)
    → c.global_capacity_pool ≡ true
    → has_room c s l n ≡ true
    → s.resident_bytes + n ≤ expert_capacity_bytes c
unfolding has_room capacity_for used_for
has_room_pool c s l n pool h = ground arith

has_room_quota :
    (c : Config) (s : Store) (l : ℤ) (n : ℕ)
    → c.global_capacity_pool ≡ false
    → has_room c s l n ≡ true
    → value_or 0 (s.layer_resident_bytes l) + n ≤ layer_capacity_bytes_locked c l
unfolding has_room capacity_for used_for
has_room_quota c s l n quotas h = ground arith

within_quota :
    (c : Config) (s : Store) (l : ℤ)
    → c.global_capacity_pool ≡ false
    → used_for c s l ≤ capacity_for c l
    → value_or 0 (s.layer_resident_bytes l) ≤ layer_capacity_bytes_locked c l
unfolding capacity_for used_for
within_quota c s l quotas h = ground arith

of_layer-le : (f : Entry → ℕ) (l : ℤ) (es : List Entry) → sum_of f (of_layer l es) ≤ sum_of f es
of_layer-le f l [] = omega arith
of_layer-le f l (e ∷ es) = ground (arith, of_layer-le f l es)

pub expert_capacity-le : (c : Config) → expert_capacity_bytes c ≤ word_max
unfolding expert_capacity_bytes
expert_capacity-le c = omega arith

resident_by_layers :
    (c : Cache)
    → IsConsistent c.store
    → IsBounded c
    → c.store.resident_bytes
      ≤ sum_of (λ l. value_or 0 (c.store.layer_resident_bytes l)) c.config.layers
resident_by_layers c v b = omega (
  arith,
  v.total,
  total-le-layers entry_bytes c.store.entries c.config.layers b.known,
  sum_mono (layer_sum entry_bytes c.store.entries)
      (λ l. value_or 0 (c.store.layer_resident_bytes l)) c.config.layers
      (λ l. omega (arith, v.layer_total l)),
)

module _ (c : Cache) (v : IsConsistent c.store) (b : IsBounded c) (l : ℤ) (n : ℕ)
    (registered : has_layer l c.config.layers ≡ true)
    (fits : has_room c.config c.store l n ≡ true) where
  fits_pool : c.config.global_capacity_pool ≡ true → c.store.resident_bytes + n ≤ word_max
  fits_pool pool = omega (arith, sum, expert_capacity-le c.config)
    where
      sum : c.store.resident_bytes + n ≤ expert_capacity_bytes c.config
      sum = has_room_pool c.config c.store l n pool fits

  fits_quotas : c.config.global_capacity_pool ≡ false → c.store.resident_bytes + n ≤ word_max
  fits_quotas quotas = omega (
    arith,
    resident_by_layers c v b,
    b.quotas,
    sum_slack (λ k. value_or 0 (c.store.layer_resident_bytes k))
        (layer_capacity_bytes_locked c.config) n l c.config.layers
        (λ k. within_quota c.config c.store k quotas (b.within k))
        (has_room_quota c.config c.store l n quotas fits) registered,
  )

  -- Neither byte count wraps when an entry of the checked size is added.
  pub total_fits_word : c.store.resident_bytes + n < word_mod
  total_fits_word = elim (Bool-cases c.config.global_capacity_pool) [
    | inl pool ↦ omega (arith, fits_pool pool)
    | inr quotas ↦ omega (arith, fits_quotas quotas)
  ]

  pub layer_fits_word : value_or 0 (c.store.layer_resident_bytes l) + n < word_mod
  layer_fits_word =
      omega (
        arith,
        total_fits_word,
        v.total,
        v.layer_total l,
        of_layer-le entry_bytes l c.store.entries,
      )
