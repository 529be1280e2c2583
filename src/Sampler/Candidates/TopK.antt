-- ===== src/Sampler/Candidates/TopK.antt =====
-- engine/sampler.cpp: the bounded heap keeps the best candidates.
use palm_infra.Common.{
  ℕ, zero, suc, ◌≤◌, ltb, ◌==◌, true, false, ◌&&◌, ◌||◌, List, [], ◌∷◌, ◌≡◌, refl, sym, ap, ◌∙◌,
  arith, length, take, take-take, take-all, All-take, All, is_nan, float_lt, float_eq, inl, inr,
  Bool-cases,
}
use palm_infra.Sampler.Candidates.{
  SamplerCandidate, better, insert_by_logit, heap_front, without_front, replace_front, offer,
}

pub better_trans :
    (a b c : SamplerCandidate) → better a b ≡ true → better b c ≡ true → better a c ≡ true
unfolding better float_lt float_eq
better_trans a b c h k = ground arith

-- Of two candidates with numbers and different ids one is better.
pub better_total :
    (a b : SamplerCandidate)
    → is_nan a.logit ≡ false
    → is_nan b.logit ≡ false
    → (a.id == b.id) ≡ false
    → better a b ≡ false
    → better b a ≡ true
unfolding better float_lt float_eq
better_total a b p q n h = ground arith

-- The test against the front is the order of the sort.
front_test :
    (c f : SamplerCandidate)
    → is_nan c.logit ≡ false
    → is_nan f.logit ≡ false
    → (float_lt f.logit c.logit || float_eq c.logit f.logit && ltb c.id f.id) ≡ better c f
unfolding better float_lt float_eq
front_test c f p q = ground arith

length-insert_by_logit :
    (c : SamplerCandidate) (xs : List SamplerCandidate)
    → length (insert_by_logit c xs) ≡ suc (length xs)
unfolding insert_by_logit
length-insert_by_logit c [] = refl
length-insert_by_logit c (x ∷ xs) = ground (arith, length-insert_by_logit c xs)

take-cons_take :
    (k : ℕ) (x : SamplerCandidate) (xs : List SamplerCandidate)
    → take k (x ∷ take k xs) ≡ take k (x ∷ xs)
take-cons_take zero x xs = refl
take-cons_take (suc k) x xs =
    ap (λ (ys : List SamplerCandidate). x ∷ ys) (take-take k (suc k) xs (omega arith))

-- The kept part of an insertion depends on the kept part only.
pub take-insert_by_logit :
    (k : ℕ) (c : SamplerCandidate) (xs : List SamplerCandidate)
    → take k (insert_by_logit c (take k xs)) ≡ take k (insert_by_logit c xs)
unfolding insert_by_logit
take-insert_by_logit zero c xs = refl
take-insert_by_logit (suc k) c [] = refl
take-insert_by_logit (suc k) c (x ∷ xs) = elim (Bool-cases (better c x)) [
  | inl h ↦ rw h (ap (λ (ys : List SamplerCandidate). c ∷ ys) (take-cons_take k x xs))
  | inr h ↦ rw h (ap (λ (ys : List SamplerCandidate). x ∷ ys) (take-insert_by_logit k c xs))
]

abbrev pub Sorted : List SamplerCandidate → Type 0
Sorted [] = Unit
Sorted (x ∷ xs) = All (λ y. better x y ≡ true) xs × Sorted xs

pub Sorted-take : (k : ℕ) (xs : List SamplerCandidate) → Sorted xs → Sorted (take k xs)
Sorted-take zero xs s = tt
Sorted-take (suc k) [] s = tt
Sorted-take (suc k) (x ∷ xs) s = (All-take (λ y. better x y ≡ true) k xs s.0, Sorted-take k xs s.1)

take-without_front :
    (y : SamplerCandidate) (ys : List SamplerCandidate)
    → take (length ys) (y ∷ ys) ≡ without_front y ys
take-without_front y [] = refl
take-without_front y (z ∷ zs) =
    ap (λ (ws : List SamplerCandidate). y ∷ ws) (take-without_front z zs)

-- One that beats the front pushes it out.
insert-beats :
    (c x : SamplerCandidate) (xs : List SamplerCandidate)
    → better c (heap_front x xs) ≡ true
    → insert_by_logit c (without_front x xs) ≡ take (suc (length xs)) (insert_by_logit c (x ∷ xs))
unfolding insert_by_logit
insert-beats c x [] h = rw h
insert-beats c x (y ∷ ys) h = elim (Bool-cases (better c x)) [
  | inl p ↦ rw p (ap (λ (ws : List SamplerCandidate). c ∷ x ∷ ws) (sym (take-without_front y ys)))
  | inr p ↦ rw p (ap (λ (ws : List SamplerCandidate). x ∷ ws) (insert-beats c y ys h))
]

better_front :
    (x y : SamplerCandidate) (ys : List SamplerCandidate)
    → All (λ z. better x z ≡ true) (y ∷ ys)
    → better x (heap_front y ys) ≡ true
better_front x y [] a = a.0
better_front x y (z ∷ zs) a = better_front x z zs a.1

-- One that does not beat the front stays out.
insert-misses :
    (c x : SamplerCandidate) (xs : List SamplerCandidate)
    → Sorted (x ∷ xs)
    → better c (heap_front x xs) ≡ false
    → x ∷ xs ≡ take (suc (length xs)) (insert_by_logit c (x ∷ xs))
unfolding insert_by_logit
insert-misses c x [] s h = rw h
insert-misses c x (y ∷ ys) s h = elim (Bool-cases (better c x)) [
  | inl p ↦
      let beats = better_trans c x (heap_front y ys) p (better_front x y ys s.0) in absurd (cc)
  | inr p ↦ rw p (ap (λ (ws : List SamplerCandidate). x ∷ ws) (insert-misses c y ys s.1 h))
]

-- A candidate with a number for its logit.
abbrev pub Numeric : SamplerCandidate → Type 0
Numeric c = is_nan c.logit ≡ false

Numeric-front :
    (x : SamplerCandidate) (xs : List SamplerCandidate)
    → All Numeric (x ∷ xs)
    → Numeric (heap_front x xs)
Numeric-front x [] a = a.0
Numeric-front x (y ∷ ys) a = Numeric-front y ys a.1

replace_front_lem :
    (c x : SamplerCandidate) (xs : List SamplerCandidate)
    → Sorted (x ∷ xs)
    → All Numeric (x ∷ xs)
    → Numeric c
    → replace_front c (x ∷ xs) ≡ take (suc (length xs)) (insert_by_logit c (x ∷ xs))
unfolding replace_front
replace_front_lem c x xs s a n =
    let test = front_test c (heap_front x xs) n (Numeric-front x xs a) in
    elim (Bool-cases (better c (heap_front x xs))) [
      | inl p ↦ rw (test ∙ p) (insert-beats c x xs p)
      | inr p ↦ rw (test ∙ p) (insert-misses c x xs s p)
    ]

offer_full :
    (k : ℕ) (heap : List SamplerCandidate) (c : SamplerCandidate)
    → Sorted heap
    → All Numeric heap
    → Numeric c
    → k ≡ length heap
    → replace_front c heap ≡ take k (insert_by_logit c heap)
offer_full k [] c s a n e = rw e (unfold replace_front in refl)
offer_full k (x ∷ xs) c s a n e = rw e (replace_front_lem c x xs s a n)

pub offer_lem :
    (k : ℕ) (heap : List SamplerCandidate) (c : SamplerCandidate)
    → length heap ≤ k
    → Sorted heap
    → All Numeric heap
    → Numeric c
    → offer k heap c ≡ take k (insert_by_logit c heap)
unfolding offer
offer_lem k heap c h s a n = elim (Bool-cases (ltb (length heap) k)) [
  | inl p ↦
      let room : length (insert_by_logit c heap) ≤ k =
        ground (arith, length-insert_by_logit c heap) in
      rw p (sym (take-all k (insert_by_logit c heap) room))
  | inr p ↦ rw p (offer_full k heap c s a n (ground arith))
]
