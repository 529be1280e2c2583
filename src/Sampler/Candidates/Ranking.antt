-- ===== src/Sampler/Candidates/Ranking.antt =====
-- engine/sampler.cpp: the candidates that are kept, against a sort of all of them.
use palm_infra.Common.{
  ℕ, ◌+◌, ◌≤◌, ◌<◌, ◌==◌, true, false, List, [], ◌∷◌, ◌≡◌, refl, sym, ap, ◌∙◌, arith, length, take,
  length-take, take-all, All, All-take, sum_of, ℤ, Float32, is_nan, float_zero, inl, inr,
  Bool-cases,
}
use palm_infra.Sampler.Candidates.{
  SamplerCandidate, better, insert_by_logit, sort_by_logit, select_from, kept_count, top_candidates,
}
use palm_infra.Sampler.Candidates.TopK.{
  better_trans, better_total, take-insert_by_logit, Sorted, Sorted-take, Numeric, offer_lem,
}

abbrev pub candidate : ℕ → Float32 → SamplerCandidate
candidate i logit = record { id = i; logit = logit; prob = float_zero }

-- The candidates of all logits from one id on, and all of them sorted.
abbrev pub candidates_from : ℕ → List Float32 → List SamplerCandidate
candidates_from i [] = []
candidates_from i (logit ∷ logits) = candidate i logit ∷ candidates_from (i + 1) logits

abbrev pub rank_from : ℕ → List Float32 → List SamplerCandidate → List SamplerCandidate
rank_from i [] ranked = ranked
rank_from i (logit ∷ logits) ranked =
    rank_from (i + 1) logits (insert_by_logit (candidate i logit) ranked)

-- Numbers for logits, and ids below the next one.
abbrev Below : ℕ → SamplerCandidate → Type 0
Below i c = (is_nan c.logit ≡ false) × (c.id < i)

Below-later : (i : ℕ) (xs : List SamplerCandidate) → All (Below i) xs → All (Below (i + 1)) xs
Below-later i [] a = tt
Below-later i (x ∷ xs) a = ((a.0.0, omega (arith, a.0.1)), Below-later i xs a.1)

pub All-insert_by_logit :
    (P : SamplerCandidate → Type 0) (c : SamplerCandidate) (xs : List SamplerCandidate)
    → P c
    → All P xs
    → All P (insert_by_logit c xs)
unfolding insert_by_logit
All-insert_by_logit P c [] p a = (p, tt)
All-insert_by_logit P c (x ∷ xs) p a = elim (Bool-cases (better c x)) [
  | inl h ↦ rw h (p, (a.0, a.1))
  | inr h ↦ rw h (a.0, All-insert_by_logit P c xs p a.1)
]

All-better :
    (c x : SamplerCandidate) (xs : List SamplerCandidate)
    → better c x ≡ true
    → All (λ y. better x y ≡ true) xs
    → All (λ y. better c y ≡ true) xs
All-better c x [] h a = tt
All-better c x (y ∷ ys) h a = (better_trans c x y h a.0, All-better c x ys h a.1)

Sorted-insert_by_logit :
    (i : ℕ) (c : SamplerCandidate) (xs : List SamplerCandidate)
    → is_nan c.logit ≡ false
    → c.id ≡ i
    → Sorted xs
    → All (Below i) xs
    → Sorted (insert_by_logit c xs)
unfolding insert_by_logit
Sorted-insert_by_logit i c [] n e s a = (tt, tt)
Sorted-insert_by_logit i c (x ∷ xs) n e s a = elim (Bool-cases (better c x)) [
  | inl h ↦ rw h ((h, All-better c x xs h s.0), s)
  | inr h ↦
      let other : (c.id == x.id) ≡ false = (let below = a.0.1 in ground arith) in
      let after = better_total c x n a.0.0 other h in
      rw h (
        All-insert_by_logit (λ y. better x y ≡ true) c xs after s.0,
        Sorted-insert_by_logit i c xs n e s.1 a.1,
      )
]

sum_of-insert_by_logit :
    (f : SamplerCandidate → ℕ) (c : SamplerCandidate) (xs : List SamplerCandidate)
    → sum_of f (insert_by_logit c xs) ≡ f c + sum_of f xs
unfolding insert_by_logit
sum_of-insert_by_logit f c [] = refl
sum_of-insert_by_logit f c (x ∷ xs) = ground (arith, sum_of-insert_by_logit f c xs)

sum_of-rank_from :
    (f : SamplerCandidate → ℕ) (i : ℕ) (logits : List Float32) (ranked : List SamplerCandidate)
    → sum_of f (rank_from i logits ranked) ≡ sum_of f (candidates_from i logits) + sum_of f ranked
sum_of-rank_from f i [] ranked = omega arith
sum_of-rank_from f i (logit ∷ logits) ranked = omega (
  arith,
  sum_of-rank_from f (i + 1) logits (insert_by_logit (candidate i logit) ranked),
  sum_of-insert_by_logit f (candidate i logit) ranked,
)

Numeric-Below : (i : ℕ) (xs : List SamplerCandidate) → All (Below i) xs → All Numeric xs
Numeric-Below i [] a = tt
Numeric-Below i (x ∷ xs) a = (a.0.0, Numeric-Below i xs a.1)

-- The heap is the front of what a sort of the candidates so far would give.
select_from-rank_from :
    (k i : ℕ) (logits : List Float32) (ranked : List SamplerCandidate)
    → All (λ l. is_nan l ≡ false) logits
    → Sorted ranked
    → All (Below i) ranked
    → (select_from k i logits (take k ranked) ≡ take k (rank_from i logits ranked))
      × Sorted (rank_from i logits ranked)
unfolding select_from
select_from-rank_from k i [] ranked n s a = (refl, s)
select_from-rank_from k i (logit ∷ logits) ranked n s a =
    let c = candidate i logit in
    let short : length (take k ranked) ≤ k = omega (arith, length-take k ranked) in
    let kept =
      offer_lem k (take k ranked) c short (Sorted-take k ranked s)
        (All-take Numeric k ranked (Numeric-Below i ranked a)) n.0
      ∙ take-insert_by_logit k c ranked in
    let rest =
      select_from-rank_from k (i + 1) logits (insert_by_logit c ranked) n.1
        (Sorted-insert_by_logit i c ranked n.0 refl s a)
        (All-insert_by_logit (Below (i + 1)) c ranked (n.0, omega arith)
          (Below-later i ranked a)) in
    (ap (select_from k (i + 1) logits) kept ∙ rest.0, rest.1)

insert-first :
    (x : SamplerCandidate) (xs : List SamplerCandidate)
    → All (λ y. better x y ≡ true) xs
    → insert_by_logit x xs ≡ x ∷ xs
unfolding insert_by_logit
insert-first x [] a = refl
insert-first x (y ∷ ys) a = rw a.0

sort_by_logit-Sorted : (xs : List SamplerCandidate) → Sorted xs → sort_by_logit xs ≡ xs
unfolding sort_by_logit
sort_by_logit-Sorted [] s = refl
sort_by_logit-Sorted (x ∷ xs) s = rw (sort_by_logit-Sorted xs s.1) (insert-first x xs s.0)

-- For logits that are numbers, the candidates kept are the first ones, as many as asked for, of all
-- candidates in order: of a list that is sorted and holds each candidate as often as the input does.
pub top_candidates_lem :
    (top_k : ℤ) (logits : List Float32)
    → All (λ l. is_nan l ≡ false) logits
    → (ranked : List SamplerCandidate) × Sorted ranked
      × ((f : SamplerCandidate → ℕ) → sum_of f ranked ≡ sum_of f (candidates_from 0 logits))
      × (top_candidates top_k logits ≡ take (kept_count top_k (length logits)) ranked)
unfolding top_candidates
top_candidates_lem top_k logits n =
    let k = kept_count top_k (length logits) in
    let ranked = rank_from 0 logits [] in
    let (kept, sorted) = select_from-rank_from k 0 logits [] n tt tt in
    (
      ranked,
      sorted,
      (λ f. omega (arith, sum_of-rank_from f 0 logits [])),
      ap (λ (heap : List SamplerCandidate). sort_by_logit (select_from k 0 logits heap))
            (sym (take-all k [] (omega arith)))
          ∙ ap sort_by_logit kept
          ∙ sort_by_logit-Sorted (take k ranked) (Sorted-take k ranked sorted),
    )
