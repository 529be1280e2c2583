-- ===== src/ExpertCache/Quotas.antt =====
-- The quotas that configure_shallow_favoring calculates.
use palm_infra.Common.{
  ℕ, zero, suc, ◌+◌, ◌-◌, ◌*◌, ◌/◌, ◌%◌, ◌≤◌, ◌<◌, ltb, ◌==◌, min, not, ◌||◌, Option, none, some,
  List, [], ◌∷◌, ℤ, pos, int_lt, ◌≡◌, refl, ap, subst, arith, All, sum_of, length, to_word,
  Bool-cases, Option-cases, inl, inr,
}
use native.Mathlib.Nat.{div-add-mod, mod-lt}
use palm_infra.ExpertCache.State.{LayerLayout, LayerMap}
use palm_infra.ExpertCache.Configure.{
  Quota, baseline, shallow_grant, fill_shallow, spread_deep, share_out,
}

abbrev pub granted_sum : List Quota → ℕ
granted_sum = sum_of (λ (q : Quota). q.granted)

-- Every layer can hold one of its pairs.
abbrev pub IsStreamable : List Quota → Type 0
IsStreamable = All (λ (q : Quota). (q.pair_bytes ≤ q.granted) × (0 < q.pair_bytes))

-- A layer's quota, with the pair size and the number of experts of its layout.
abbrev pub IsQuotaOf : LayerMap LayerLayout → ℤ → Quota → Type 0
IsQuotaOf layouts l q =
    (layout : LayerLayout) × (layouts l ≡ some layout)
    × (q.layer ≡ l)
    × (q.pair_bytes ≡ layout.pair_bytes)
    × (q.num_experts ≡ to_word layout.num_experts)

-- One quota for each layer, in the order of the layers.
abbrev pub AreQuotasOf : LayerMap LayerLayout → List ℤ → List Quota → Type 0
AreQuotasOf layouts [] [] = Unit {0}
AreQuotasOf layouts [] (q ∷ qs) = ⊥
AreQuotasOf layouts (l ∷ ls) [] = ⊥
AreQuotasOf layouts (l ∷ ls) (q ∷ qs) = IsQuotaOf layouts l q × AreQuotasOf layouts ls qs

-- What the first loop gives, where it succeeds.
abbrev IsBaseline : LayerMap LayerLayout → List ℤ → ℕ → ℕ → Option (List Quota × ℕ) → Type 0
IsBaseline layouts ls capacity minimum none = Unit {0}
IsBaseline layouts ls capacity minimum (some (qs, total)) =
    AreQuotasOf layouts ls qs
    × IsStreamable qs
    × (minimum + granted_sum qs ≡ total)
    × (total ≤ capacity)

extend-IsBaseline :
    (layouts : LayerMap LayerLayout) (l : ℤ) (ls : List ℤ) (capacity minimum : ℕ) (q : Quota)
    (rest : Option (List Quota × ℕ))
    → IsQuotaOf layouts l q
    → q.granted ≡ q.pair_bytes
    → 0 < q.pair_bytes
    → IsBaseline layouts ls capacity (minimum + q.pair_bytes) rest
    → IsBaseline layouts
        (l ∷ ls)
        capacity
        minimum
        (elim rest [ none ↦ none | some (quotas, total) ↦ some (q ∷ quotas, total) ])
extend-IsBaseline layouts l ls capacity minimum q none o g p h = tt
extend-IsBaseline layouts l ls capacity minimum q (some (quotas, total)) o g p h =
    ((o, h.0), ((omega arith, p), h.1), omega (arith, h.2), h.3)

baseline-IsBaseline :
    (layouts : LayerMap LayerLayout) (capacity minimum : ℕ) (ls : List ℤ)
    → minimum ≤ capacity
    → IsBaseline layouts ls capacity minimum (baseline layouts capacity minimum ls)
unfolding baseline
baseline-IsBaseline layouts capacity minimum [] l = (tt, tt, omega arith, l)
baseline-IsBaseline layouts capacity minimum (k ∷ ks) l = elim (Option-cases (layouts k)) [
  | inl missing ↦ rw (missing, baseline) tt
  | inr (layout, found) ↦
      elim (Bool-cases (
        layout.pair_bytes == 0
        || not (int_lt (pos 0) layout.num_experts)
        || ltb (capacity - minimum) layout.pair_bytes)) [
          | inl refused ↦ rw (found, baseline, refused) tt
          | inr taken ↦
              rw (found, baseline, taken)
                (extend-IsBaseline layouts k ks capacity minimum _ _
                  (layout, found, refl, refl, refl) refl (ground arith)
                  (baseline-IsBaseline layouts capacity (minimum + layout.pair_bytes) ks
                    (ground arith)))
        ]
]

fill_shallow-sum :
    (n remaining : ℕ) (qs : List Quota)
    → granted_sum (fill_shallow n remaining qs).0 + (fill_shallow n remaining qs).1
      ≡ granted_sum qs + remaining
unfolding fill_shallow shallow_grant
fill_shallow-sum n remaining [] = ground (arith)
fill_shallow-sum zero remaining (q ∷ qs) = refl
fill_shallow-sum (suc n) remaining (q ∷ qs) =
    ground (arith, fill_shallow-sum n (remaining - shallow_grant remaining q) qs)

fill_shallow-IsStreamable :
    (n remaining : ℕ) (qs : List Quota)
    → IsStreamable qs
    → IsStreamable (fill_shallow n remaining qs).0
unfolding fill_shallow
fill_shallow-IsStreamable n remaining [] h = tt
fill_shallow-IsStreamable zero remaining (q ∷ qs) h = h
fill_shallow-IsStreamable (suc n) remaining (q ∷ qs) h = (
  (omega (arith, h.0), h.0.1),
  fill_shallow-IsStreamable n (remaining - shallow_grant remaining q) qs h.1,
)

fill_shallow-AreQuotasOf :
    (layouts : LayerMap LayerLayout) (ls : List ℤ) (n remaining : ℕ) (qs : List Quota)
    → AreQuotasOf layouts ls qs
    → AreQuotasOf layouts ls (fill_shallow n remaining qs).0
unfolding fill_shallow
fill_shallow-AreQuotasOf layouts ls n remaining [] h = h
fill_shallow-AreQuotasOf layouts ls zero remaining (q ∷ qs) h = h
fill_shallow-AreQuotasOf layouts [] (suc n) remaining (q ∷ qs) h = absurd h
fill_shallow-AreQuotasOf layouts (l ∷ ls) (suc n) remaining (q ∷ qs) h =
    (h.0, fill_shallow-AreQuotasOf layouts ls n (remaining - shallow_grant remaining q) qs h.1)

fill_shallow-length :
    (n remaining : ℕ) (qs : List Quota) → length (fill_shallow n remaining qs).0 ≡ length qs
unfolding fill_shallow
fill_shallow-length n remaining [] = refl
fill_shallow-length zero remaining (q ∷ qs) = refl
fill_shallow-length (suc n) remaining (q ∷ qs) =
    omega (arith, fill_shallow-length n (remaining - shallow_grant remaining q) qs)

spread_deep-IsStreamable :
    (n per extra : ℕ) (qs : List Quota)
    → IsStreamable qs
    → IsStreamable (spread_deep n per extra qs)
unfolding spread_deep
spread_deep-IsStreamable n per extra [] h = tt
spread_deep-IsStreamable (suc n) per extra (q ∷ qs) h =
    (h.0, spread_deep-IsStreamable n per extra qs h.1)
spread_deep-IsStreamable zero per extra (q ∷ qs) h =
    ((omega (arith, h.0), h.0.1), spread_deep-IsStreamable zero per (extra - 1) qs h.1)

spread_deep-AreQuotasOf :
    (layouts : LayerMap LayerLayout) (ls : List ℤ) (n per extra : ℕ) (qs : List Quota)
    → AreQuotasOf layouts ls qs
    → AreQuotasOf layouts ls (spread_deep n per extra qs)
unfolding spread_deep
spread_deep-AreQuotasOf layouts ls n per extra [] h = h
spread_deep-AreQuotasOf layouts [] n per extra (q ∷ qs) h = absurd h
spread_deep-AreQuotasOf layouts (l ∷ ls) (suc n) per extra (q ∷ qs) h =
    (h.0, spread_deep-AreQuotasOf layouts ls n per extra qs h.1)
spread_deep-AreQuotasOf layouts (l ∷ ls) zero per extra (q ∷ qs) h =
    (h.0, spread_deep-AreQuotasOf layouts ls zero per (extra - 1) qs h.1)

spread_deep-sum_all :
    (per extra : ℕ) (qs : List Quota)
    → granted_sum (spread_deep zero per extra qs)
      ≡ granted_sum qs + length qs * per + min extra (length qs)
unfolding spread_deep
spread_deep-sum_all per extra [] = omega arith
spread_deep-sum_all per extra (q ∷ qs) = ground (arith, spread_deep-sum_all per (extra - 1) qs)

spread_deep-sum :
    (n per extra : ℕ) (qs : List Quota)
    → n ≤ length qs
    → granted_sum (spread_deep n per extra qs)
      ≡ granted_sum qs + (length qs - n) * per + min extra (length qs - n)
unfolding spread_deep
spread_deep-sum zero per extra qs l = ground (arith, spread_deep-sum_all per extra qs)
spread_deep-sum (suc n) per extra [] l = absurd (omega arith)
spread_deep-sum (suc n) per extra (q ∷ qs) l = ground (arith, spread_deep-sum n per extra qs)

whole_spread :
    (total before count left deep : ℕ)
    → total ≡ before + count * (left / deep) + min (left % deep) count
    → count ≡ deep
    → 0 < deep
    → total ≡ before + left
whole_spread total before count left deep h same positive =
    let scaled = ap (λ (k : ℕ). k * (left / deep)) same in
    omega (arith, h, scaled, div-add-mod left deep, mod-lt left positive)

-- From quotas that let every layer stream: sharing out what is left keeps them so, and grants every
-- byte that was left if there is a deep layer, and never more than that.
pub share_out-IsStreamable :
    (shallow_layers remaining : ℕ) (quotas : List Quota)
    → IsStreamable quotas
    → IsStreamable (share_out shallow_layers remaining quotas)
      × (granted_sum (share_out shallow_layers remaining quotas) ≤ granted_sum quotas + remaining)
      × (shallow_layers < length quotas
          → granted_sum (share_out shallow_layers remaining quotas)
            ≡ granted_sum quotas + remaining)
unfolding share_out
share_out-IsStreamable shallow_layers remaining quotas h =
    let n = min shallow_layers (length quotas) in
    let filled = (fill_shallow n remaining quotas).0 in
    let left = (fill_shallow n remaining quotas).1 in
    let deep = length quotas - n in
    let kept = fill_shallow-IsStreamable n remaining quotas h in
    let sum = fill_shallow-sum n remaining quotas in
    let same = fill_shallow-length n remaining quotas in
    elim (Bool-cases (deep == 0 || left == 0)) [
      | inl done ↦ rw done (kept, omega (arith, sum), λ l. ground (arith, sum))
      | inr more ↦
          let total =
            whole_spread _ _ _ left deep
              (spread_deep-sum n (left / deep) (left % deep) filled (omega (arith, same)))
              (omega (arith, same)) (ground (arith, more)) in
          rw more (
            spread_deep-IsStreamable n (left / deep) (left % deep) filled kept,
            omega (arith, total, sum),
            λ l. omega (arith, total, sum),
          )
    ]

share_out-AreQuotasOf :
    (layouts : LayerMap LayerLayout) (ls : List ℤ) (shallow_layers remaining : ℕ)
    (quotas : List Quota)
    → AreQuotasOf layouts ls quotas
    → AreQuotasOf layouts ls (share_out shallow_layers remaining quotas)
unfolding share_out
share_out-AreQuotasOf layouts ls shallow_layers remaining quotas h =
    let n = min shallow_layers (length quotas) in
    let (filled, left) = fill_shallow n remaining quotas in
    let deep = length quotas - n in
    let kept = fill_shallow-AreQuotasOf layouts ls n remaining quotas h in
    elim (Bool-cases (deep == 0 || left == 0)) [
      | inl done ↦ rw done kept
      | inr more ↦
          rw more (spread_deep-AreQuotasOf layouts ls n (left / deep) (left % deep) filled kept)
    ]

-- Whenever the first loop accepts the layouts of the layers: the whole calculation gives one quota for
-- each layer, in their order, with the pair size and the number of experts of the layer's layout;
-- every layer can hold one of its pairs, the quotas sum up to at most the capacity, and with fewer
-- shallow layers than layers they sum up to exactly the capacity.
pub share_out-baseline :
    (layouts : LayerMap LayerLayout) (capacity shallow_layers : ℕ) (ls : List ℤ)
    (quotas : List Quota) (minimum : ℕ)
    → baseline layouts capacity 0 ls ≡ some (quotas, minimum)
    → let shared = share_out shallow_layers (capacity - minimum) quotas in
      AreQuotasOf layouts ls shared
      × IsStreamable shared
      × (granted_sum shared ≤ capacity)
      × (shallow_layers < length quotas → granted_sum shared ≡ capacity)
share_out-baseline layouts capacity shallow_layers ls quotas minimum h =
    let based : IsBaseline layouts ls capacity 0 (some (quotas, minimum)) =
      subst (IsBaseline layouts ls capacity 0) h
        (baseline-IsBaseline layouts capacity 0 ls (omega arith)) in
    let shared = share_out-IsStreamable shallow_layers (capacity - minimum) quotas based.1 in
    (
      share_out-AreQuotasOf layouts ls shallow_layers (capacity - minimum) quotas based.0,
      shared.0,
      omega (arith, shared.1, based.2, based.3),
      λ l. omega (arith, shared.2 l, based.2, based.3),
    )
