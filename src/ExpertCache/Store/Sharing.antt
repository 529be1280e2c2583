-- ===== src/ExpertCache/Store/Sharing.antt =====
-- The capacities of the layers of MoeSsdCache, shared equally or by configure_shallow_favoring, as sums.
use palm_infra.Common.{
  ℕ, ◌+◌, ◌*◌, ◌/◌, ◌≤◌, ◌<◌, ◌==◌, true, false, ◌||◌, if◌then◌else◌, none, some, List, [], ◌∷◌, ℤ,
  pos, negsuc, int_lt, int_eq, int_eq_iff, length, ◌≡◌, refl, sym, ap, subst, ◌∙◌, ◌⊎◌, arith,
  sum_of, word_max, Bool-cases, inl, inr,
}
use native.Mathlib.Nat.{div-mul-le_self}
use palm_infra.ExpertCache.State.{
  Config, LayerLayout, LayerMap, put, no_keys, layer_capacity_bytes_locked, expert_capacity_bytes,
}
use palm_infra.ExpertCache.Configure.{Quota, insert_layer, sort_layers, quota_map}
use palm_infra.ExpertCache.Quotas.{AreQuotasOf, granted_sum}
use palm_infra.ExpertCache.Store.Bounds.{has_layer, IsSized, expert_capacity-le}

-- Equal shares of the capacity.
module _ (c : Config) (unset : c.layer_capacity_bytes ≡ no_keys) where
  share_of :
      (l : ℤ)
      → 0 < length c.layers
      → layer_capacity_bytes_locked c l ≡ expert_capacity_bytes c / length c.layers
  unfolding layer_capacity_bytes_locked
  share_of l h =
      rw (layer_capacity_bytes_locked, ap (λ (m : LayerMap ℕ). m l) unset) (ground (arith, h))

  shares :
      (ls : List ℤ)
      → 0 < length c.layers
      → sum_of (layer_capacity_bytes_locked c) ls
        ≡ length ls * (expert_capacity_bytes c / length c.layers)
  shares [] h = omega arith
  shares (l ∷ ls) h = grind (arith, shares ls h, share_of l h)

  some_layers : (ls : List ℤ) → (ls ≡ []) ⊎ (0 < length ls)
  some_layers [] = inl refl
  some_layers (l ∷ ls) = inr (omega arith)

  pub shares-IsSized : IsSized c
  shares-IsSized = elim (some_layers c.layers) [
    | inl z ↦ rw z (omega arith)
    | inr p ↦ omega (
      arith,
      shares c.layers p,
      div-mul-le_self (expert_capacity_bytes c) (length c.layers),
      expert_capacity-le c,
    )
  ]

-- Different layers, as in a set.
abbrev pub AreDistinct : List ℤ → Type 0
AreDistinct [] = Unit {0}
AreDistinct (l ∷ ls) = (has_layer l ls ≡ false) × AreDistinct ls

has_layer-insert_layer :
    (x l : ℤ) (ls : List ℤ) → has_layer x (insert_layer l ls) ≡ (int_eq l x || has_layer x ls)
unfolding insert_layer
has_layer-insert_layer x l [] = refl
has_layer-insert_layer x l (k ∷ ks) = ground (arith, has_layer-insert_layer x l ks)

has_layer-sort_layers : (x : ℤ) (ls : List ℤ) → has_layer x (sort_layers ls) ≡ has_layer x ls
unfolding sort_layers
has_layer-sort_layers x [] = refl
has_layer-sort_layers x (l ∷ ls) =
    has_layer-insert_layer x l (sort_layers ls)
    ∙ ap (λ b. int_eq l x || b) (has_layer-sort_layers x ls)

int_eq_flip : (a b : ℤ) → int_eq a b ≡ int_eq b a
unfolding int_eq
int_eq_flip (pos m) (pos n) = ground arith
int_eq_flip (negsuc m) (negsuc n) = ground arith
int_eq_flip (pos m) (negsuc n) = refl
int_eq_flip (negsuc m) (pos n) = refl

insert_layer-AreDistinct :
    (l : ℤ) (ls : List ℤ)
    → has_layer l ls ≡ false
    → AreDistinct ls
    → AreDistinct (insert_layer l ls)
unfolding insert_layer
insert_layer-AreDistinct l [] h d = (refl, tt)
insert_layer-AreDistinct l (k ∷ ks) h d = elim (Bool-cases (int_lt l k)) [
  | inl before ↦ rw before (h, d)
  | inr after ↦ rw after (
    has_layer-insert_layer k l ks ∙ ground (arith, h, d.0, int_eq_flip l k),
    insert_layer-AreDistinct l ks (ground (arith, h)) d.1,
  )
]

sort_layers-AreDistinct : (ls : List ℤ) → AreDistinct ls → AreDistinct (sort_layers ls)
unfolding sort_layers
sort_layers-AreDistinct [] d = tt
sort_layers-AreDistinct (l ∷ ls) d =
    insert_layer-AreDistinct l (sort_layers ls) (has_layer-sort_layers l ls ∙ d.0)
      (sort_layers-AreDistinct ls d.1)

sum-insert_layer :
    (f : ℤ → ℕ) (l : ℤ) (ls : List ℤ) → sum_of f (insert_layer l ls) ≡ f l + sum_of f ls
unfolding insert_layer
sum-insert_layer f l [] = refl
sum-insert_layer f l (k ∷ ks) = ground (arith, sum-insert_layer f l ks)

sum-sort_layers : (f : ℤ → ℕ) (ls : List ℤ) → sum_of f (sort_layers ls) ≡ sum_of f ls
unfolding sort_layers
sum-sort_layers f [] = refl
sum-sort_layers f (l ∷ ls) =
    omega (arith, sum-insert_layer f l (sort_layers ls), sum-sort_layers f ls)

-- The capacity of a layer under a map of quotas.
module _ (other : ℤ → ℕ) where
  abbrev quota_at : LayerMap ℕ → ℤ → ℕ
  quota_at m l = elim (m l) [ some configured ↦ configured | none ↦ other l ]

  quota_at-put :
      (m : LayerMap ℕ) (l : ℤ) (n : ℕ) (ls : List ℤ)
      → has_layer l ls ≡ false
      → sum_of (quota_at (put m l n)) ls ≡ sum_of (quota_at m) ls
  quota_at-put m l n [] h = refl
  quota_at-put m l n (k ∷ ks) h =
      let apart : int_eq l k ≡ false = int_eq_flip l k ∙ ground (arith, h) in
      ground (arith, apart, quota_at-put m l n ks)

  quota_map-sum :
      (layouts : LayerMap LayerLayout) (ls : List ℤ) (qs : List Quota)
      → AreDistinct ls
      → AreQuotasOf layouts ls qs
      → sum_of (quota_at (quota_map qs)) ls ≡ granted_sum qs
  unfolding quota_map
  quota_map-sum layouts [] [] d a = refl
  quota_map-sum layouts [] (q ∷ qs) d a = absurd a
  quota_map-sum layouts (l ∷ ls) [] d a = absurd a
  quota_map-sum layouts (l ∷ ls) (q ∷ qs) d ((layout, found, same, size, experts), rest) =
      let here : int_eq q.layer l ≡ true = (int_eq_iff q.layer l).1 same in
      let absent : has_layer q.layer ls ≡ false = ap (λ k. has_layer k ls) same ∙ d.0 in
      ground (
        arith,
        here,
        quota_at-put (quota_map qs) q.layer q.granted ls absent,
        quota_map-sum layouts ls qs d.1 rest,
      )

-- The quotas that configure_shallow_favoring sets.
pub quota_map-IsSized :
    (c : Config) (layouts : LayerMap LayerLayout) (qs : List Quota)
    → AreDistinct c.layers
    → AreQuotasOf layouts (sort_layers c.layers) qs
    → granted_sum qs ≤ word_max
    → IsSized (record c { layer_capacity_bytes = quota_map qs })
unfolding layer_capacity_bytes_locked
quota_map-IsSized c layouts qs d a h =
    let share : ℕ =
      if length c.layers == 0
      then expert_capacity_bytes c
      else expert_capacity_bytes c / length c.layers in
    let sorted = sum-sort_layers (quota_at (λ l. share) (quota_map qs)) c.layers in
    let sum =
      quota_map-sum (λ l. share) layouts (sort_layers c.layers) qs
        (sort_layers-AreDistinct c.layers d) a in
    subst (λ n. n ≤ word_max) (sym sum ∙ sorted) h
