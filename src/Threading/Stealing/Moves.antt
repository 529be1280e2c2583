-- ===== src/Threading/Stealing/Moves.antt =====
-- runtime/threading.cpp: every move of a thread keeps the account of the jobs, and what has been
-- executed when the caller returns.
use palm_infra.Common.{
  ℕ, zero, suc, ◌+◌, ◌-◌, ◌≤◌, ◌<◌, ltb, ◌==◌, false, Option, none, some, List, [], ◌∷◌, get_elem?,
  get_or, sum_of, le-sum_of, ◌≡◌, refl, subst, arith, sum_of-replicate, All-replicate, inl, inr,
  Bool-cases, Option-cases,
}
use palm_infra.Threading.Stealing.{
  Phase, Team, launch, Move, with_phase, take_number, depart, move_at, thread_of, move, moves,
}
use palm_infra.Threading.Stealing.Once.{
  holds_job, busy, PhaseFits, IsTeam, after-IsTeam, stays-IsTeam, fits_now, caller_now,
}

module _ (total : ℕ) (s : Team) (v : IsTeam total s) (t : ℕ) where
  wake-IsTeam :
      get_elem? s.threads t ≡ some Phase.waiting → IsTeam total (with_phase s t Phase.fetching)
  wake-IsTeam e =
      stays-IsTeam total s v t Phase.waiting e s.counter Phase.fetching s.executed (omega arith)
        (λ j h. omega arith) v.only tt refl refl

  execute-IsTeam :
      (j : ℕ)
      → get_elem? s.threads t ≡ some (Phase.holding j)
      → IsTeam total (with_phase (record s { executed = (t, j) ∷ s.executed }) t Phase.fetching)
  execute-IsTeam j e =
      stays-IsTeam total s v t (Phase.holding j) e s.counter Phase.fetching ((t, j) ∷ s.executed)
        (omega arith) (λ k h. omega arith) (fits_now total s v t (Phase.holding j) e, v.only) tt
        refl refl

  fetch-IsTeam : get_elem? s.threads t ≡ some Phase.fetching → IsTeam total (take_number total s t)
  fetch-IsTeam e = elim (Bool-cases (ltb s.counter total)) [
    | inl h ↦
        rw (h, take_number)
          (stays-IsTeam total s v t Phase.fetching e (s.counter + 1) (Phase.holding s.counter)
            s.executed (omega arith) (λ j k. ground arith) v.only (ground arith) refl refl)
    | inr h ↦
        rw (h, take_number)
          (stays-IsTeam total s v t Phase.fetching e (s.counter + 1) Phase.leaving s.executed
            (omega arith) (λ j k. ground arith) v.only (ground arith) refl refl)
  ]

  return-IsTeam :
      get_elem? s.threads t ≡ some Phase.leaving
      → t ≡ 0
      → s.pending ≡ 0
      → IsTeam total (with_phase s t Phase.finished)
  return-IsTeam e z q =
      let here = caller_now total s v t Phase.leaving e z in
      after-IsTeam total s v t Phase.leaving e s.counter s.pending Phase.finished s.executed
        (omega arith) (λ j h. omega arith) v.only (fits_now total s v t Phase.leaving e)
        (rw (z, here) (omega arith)) (λ d. q)

  depart-IsTeam :
      get_elem? s.threads t ≡ some Phase.leaving
      → (t == 0) ≡ false
      → 0 < s.pending
      → IsTeam total (with_phase (record s { pending = s.pending - 1 }) t Phase.finished)
  depart-IsTeam e z q =
      after-IsTeam total s v t Phase.leaving e s.counter (s.pending - 1) Phase.finished s.executed
        (omega arith) (λ j h. omega arith) v.only (fits_now total s v t Phase.leaving e)
        (rw z (omega arith)) (rw z (λ d. omega (arith, v.returned d)))

two_busy :
    (ps : List Phase) (k : ℕ) (p : Phase)
    → get_elem? ps (suc k) ≡ some p
    → busy (get_or ps 0 Phase.finished) + busy p ≤ sum_of busy ps
two_busy [] k p e = cc
two_busy (q ∷ ps) k p e = omega (arith, le-sum_of busy ps k p e)

-- The state after a move that is possible.
abbrev Sound : ℕ → Option Team → Type 0
Sound total none = Unit
Sound total (some s) = IsTeam total s

module _ (total : ℕ) (s : Team) (v : IsTeam total s) where
  leave-Sound : (t : ℕ) → get_elem? s.threads t ≡ some Phase.leaving → Sound total (depart s t)
  leave-Sound zero e = elim (Bool-cases (s.pending == 0)) [
    | inl h ↦ rw (h, depart) (return-IsTeam total s v 0 e refl (ground arith))
    | inr h ↦ rw (h, depart) tt
  ]
  leave-Sound (suc k) e =
      let other : (suc k == 0) ≡ false = ground arith in
      rw (other, depart)
        (depart-IsTeam total s v (suc k) e other
          (omega (arith, two_busy s.threads k Phase.leaving e, v.counted)))

  move_at-Sound :
      (m : Move) (p : Phase)
      → get_elem? s.threads (thread_of m) ≡ some p
      → Sound total (move_at total s m p)
  unfolding move_at
  move_at-Sound (Move.wake t) Phase.waiting e = wake-IsTeam total s v t e
  move_at-Sound (Move.wake t) Phase.fetching e = tt
  move_at-Sound (Move.wake t) Phase.leaving e = tt
  move_at-Sound (Move.wake t) Phase.finished e = tt
  move_at-Sound (Move.wake t) (Phase.holding j) e = tt
  move_at-Sound (Move.fetch t) Phase.fetching e = fetch-IsTeam total s v t e
  move_at-Sound (Move.fetch t) Phase.waiting e = tt
  move_at-Sound (Move.fetch t) Phase.leaving e = tt
  move_at-Sound (Move.fetch t) Phase.finished e = tt
  move_at-Sound (Move.fetch t) (Phase.holding j) e = tt
  move_at-Sound (Move.execute t) (Phase.holding j) e = execute-IsTeam total s v t j e
  move_at-Sound (Move.execute t) Phase.waiting e = tt
  move_at-Sound (Move.execute t) Phase.fetching e = tt
  move_at-Sound (Move.execute t) Phase.leaving e = tt
  move_at-Sound (Move.execute t) Phase.finished e = tt
  move_at-Sound (Move.leave t) Phase.leaving e = leave-Sound t e
  move_at-Sound (Move.leave t) Phase.waiting e = tt
  move_at-Sound (Move.leave t) Phase.fetching e = tt
  move_at-Sound (Move.leave t) Phase.finished e = tt
  move_at-Sound (Move.leave t) (Phase.holding j) e = tt

  move-Sound : (m : Move) → Sound total (move total s m)
  unfolding move
  move-Sound m = elim (Option-cases (get_elem? s.threads (thread_of m))) [
    | inl e ↦ rw (e, move) tt
    | inr (p, e) ↦ rw (e, move) (move_at-Sound m p e)
  ]

moves-Sound :
    (total : ℕ) (s : Team) (ms : List Move) → IsTeam total s → Sound total (moves total s ms)
unfolding moves
moves-Sound total s [] v = v
moves-Sound total s (m ∷ ms) v = elim (Option-cases (move total s m)) [
  | inl e ↦ rw (e, moves) tt
  | inr (s', e) ↦
      rw (e, moves) (moves-Sound total s' ms (subst (Sound total) e (move-Sound total s v m)))
]

-- The caller is about to take its first number.
launch-IsTeam : (total active : ℕ) → 0 < active → IsTeam total (launch active)
unfolding launch
launch-IsTeam total active h =
    let n = active - 1 in
    record {
      once = λ j k. ground (arith, sum_of-replicate (holds_job j) n Phase.waiting);
      only = tt;
      fits = (tt, All-replicate (PhaseFits total 0) n Phase.waiting tt);
      counted = omega (arith, sum_of-replicate busy n Phase.waiting);
      returned = λ e. cc;
      some_caller = λ e. cc;
    }

pub reached-IsTeam :
    (total active : ℕ) (ms : List Move) (s : Team)
    → 0 < active
    → moves total (launch active) ms ≡ some s
    → IsTeam total s
reached-IsTeam total active ms s h e =
    subst (Sound total) e (moves-Sound total (launch active) ms (launch-IsTeam total active h))
