-- ===== src/ExpertCache/Retention.antt =====
-- What the lists of retained experts hold.
use palm_infra.Common.{
  ℕ, ◌≤◌, ◌<◌, ◌==◌, true, false, not, ◌||◌, List, [], ◌∷◌, ◌++◌, ℤ, int_eq_iff, int_eq_refl,
  length, ◌≡◌, refl, sym, ap, ◌∙◌, arith, Bool-cases, inl, inr, ◌⊎◌, length-append, Float32,
}
use palm_infra.ExpertCache.Spec.{TensorSource}
use palm_infra.ExpertCache.State.{Entry}
use palm_infra.ExpertCache.Notes.{has_expert}
use palm_infra.ExpertCache.Retain.{
  keep_route, fill_up, next_retained, Candidate, sort_candidates, candidates_of, in_range,
}

has_expert-append :
    (x : ℤ) (xs ys : List ℤ) → has_expert x (xs ++ ys) ≡ (has_expert x xs || has_expert x ys)
has_expert-append x [] ys = refl
has_expert-append x (y ∷ xs) ys = ground (arith, has_expert-append x xs ys)

has_expert-snoc_self : (x : ℤ) (xs : List ℤ) → has_expert x (xs ++ x ∷ []) ≡ true
has_expert-snoc_self x xs = ground (arith, has_expert-append x xs (x ∷ []), int_eq_refl x)

has_expert-snoc_mono :
    (x y : ℤ) (xs : List ℤ) → has_expert x xs ≡ true → has_expert x (xs ++ y ∷ []) ≡ true
has_expert-snoc_mono x y xs h = ground (arith, has_expert-append x xs (y ∷ []))

keep_route-length :
    (gate_up : TensorSource) (limit : ℕ) (next experts : List ℤ)
    → length next < limit
    → length (keep_route gate_up limit next experts) ≤ limit
unfolding keep_route
keep_route-length gate_up limit next [] h = omega arith
keep_route-length gate_up limit next (x ∷ xs) h = ground (
  arith,
  length-append next (x ∷ []),
  keep_route-length gate_up limit next xs,
  keep_route-length gate_up limit (next ++ x ∷ []) xs,
)

keep_route_mono :
    (gate_up : TensorSource) (limit : ℕ) (y : ℤ) (next experts : List ℤ)
    → has_expert y next ≡ true
    → has_expert y (keep_route gate_up limit next experts) ≡ true
unfolding keep_route
keep_route_mono gate_up limit y next [] h = h
keep_route_mono gate_up limit y next (x ∷ xs) h = ground (
  arith,
  has_expert-snoc_mono y x next h,
  keep_route_mono gate_up limit y next xs,
  keep_route_mono gate_up limit y (next ++ x ∷ []) xs,
)

-- A route that did not fill the list is in it.
keep_route_all :
    (gate_up : TensorSource) (limit : ℕ) (y : ℤ) (next experts : List ℤ)
    → length next < limit
    → has_expert y experts ≡ true
    → in_range gate_up y ≡ true
    → (length (keep_route gate_up limit next experts) ≡ limit)
      ⊎ (has_expert y (keep_route gate_up limit next experts) ≡ true)
unfolding keep_route
keep_route_all gate_up limit y next [] h k r = ground arith
keep_route_all gate_up limit y next (x ∷ xs) h k r =
    elim (Bool-cases (not (in_range gate_up x) || has_expert x next)) [
      | inl skipped ↦
          rw (keep_route, skipped)
            (elim (Bool-cases (has_expert y xs)) [
              | inl later ↦ keep_route_all gate_up limit y next xs h later r
              | inr past ↦
                  let same : x ≡ y = head_is past in
                  let there : has_expert y next ≡ true =
                    present same (ground (arith, ap (in_range gate_up) same, skipped, r)) in
                  inr (keep_route_mono gate_up limit y next xs there)
            ])
      | inr taken ↦ elim (Bool-cases (length (next ++ x ∷ []) == limit)) [
        | inl full ↦ rw (keep_route, taken, full) (inl (ground (arith, full)))
        | inr more ↦
            rw (keep_route, taken, more)
              (elim (Bool-cases (has_expert y xs)) [
                | inl later ↦
                    keep_route_all gate_up limit y (next ++ x ∷ []) xs
                      (ground (arith, more, length-append next (x ∷ []))) later r
                | inr past ↦
                    inr
                      (keep_route_mono gate_up limit y (next ++ x ∷ []) xs (placed (head_is past)))
              ])
      ]
    ]
  where
    head_is : has_expert y xs ≡ false → x ≡ y
    head_is past = (int_eq_iff x y).0 (ground (arith, k, past))

    present : x ≡ y → has_expert x next ≡ true → has_expert y next ≡ true
    present same q = ap (λ z. has_expert z next) (sym same) ∙ q

    placed : x ≡ y → has_expert y (next ++ x ∷ []) ≡ true
    placed same = ap (λ z. has_expert z (next ++ x ∷ [])) (sym same) ∙ has_expert-snoc_self x next

fill_up-length :
    (limit : ℕ) (next : List ℤ) (xs : List Candidate)
    → length next ≤ limit
    → length (fill_up limit next xs) ≤ limit
unfolding fill_up
fill_up-length limit next [] h = h
fill_up-length limit next (x ∷ xs) h =
    ground
      (arith, length-append next (x.expert ∷ []), fill_up-length limit (next ++ x.expert ∷ []) xs)

fill_up_mono :
    (limit : ℕ) (y : ℤ) (next : List ℤ) (xs : List Candidate)
    → has_expert y next ≡ true
    → has_expert y (fill_up limit next xs) ≡ true
unfolding fill_up
fill_up_mono limit y next [] h = h
fill_up_mono limit y next (x ∷ xs) h =
    ground (
      arith,
      has_expert-snoc_mono y x.expert next h,
      fill_up_mono limit y (next ++ x.expert ∷ []) xs,
    )

fill_up_grows :
    (limit : ℕ) (next : List ℤ) (xs : List Candidate) → length next ≤ length (fill_up limit next xs)
unfolding fill_up
fill_up_grows limit next [] = omega arith
fill_up_grows limit next (x ∷ xs) =
    ground
      (arith, length-append next (x.expert ∷ []), fill_up_grows limit (next ++ x.expert ∷ []) xs)

-- For a limit of at least one: the retained list has at most so many experts, and it is full or it
-- holds every expert of the route, out of range ones apart.
pub next_retained_holds :
    (gate_up down : TensorSource) (limit : ℕ) (scores : List Float32) (experts : List ℤ)
    (es : List Entry)
    → 0 < limit
    → let r = next_retained gate_up down limit scores experts es in
      (length r ≤ limit)
      × ((y : ℤ)
          → has_expert y experts ≡ true
          → in_range gate_up y ≡ true
          → (length r ≡ limit) ⊎ (has_expert y r ≡ true))
unfolding next_retained
next_retained_holds gate_up down limit scores experts es h =
    let next = keep_route gate_up limit [] experts in
    let short = keep_route-length gate_up limit [] experts h in
    let sorted = sort_candidates (candidates_of gate_up down scores next es) in
    (
      fill_up-length limit next sorted short,
      λ y k r. elim (keep_route_all gate_up limit y [] experts h k r) [
        | inl full ↦ inl (
            omega (
              arith,
              full,
              fill_up-length limit next sorted short,
              fill_up_grows limit next sorted,
            ))
        | inr there ↦ inr (fill_up_mono limit y next sorted there)
      ],
    )
