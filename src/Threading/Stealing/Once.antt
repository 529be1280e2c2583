-- ===== src/Threading/Stealing/Once.antt =====
-- runtime/threading.cpp: each job of a grid is executed once.
use palm_infra.Common.{
  ℕ, zero, suc, ◌+◌, ◌≤◌, ◌<◌, ltb, ◌==◌, some, List, [], ◌∷◌, set, get_elem?, get_or,
  if◌then◌else◌, sum_of, sum_of-set, All, All-set, All-get_elem?, ◌≡◌, ◌≢◌, refl, sym, subst, ap,
  ◌∙◌, arith, inl, inr, Bool-cases,
}
use palm_infra.Threading.Stealing.{Phase, Team}

-- How often a job was executed, and whether a thread holds_job it.
abbrev pub times : ℕ → List (ℕ × ℕ) → ℕ
times j calls = sum_of (λ c. if c.1 == j then 1 else 0) calls

abbrev pub holds_job : ℕ → Phase → ℕ
holds_job j Phase.waiting = 0
holds_job j Phase.fetching = 0
holds_job j Phase.leaving = 0
holds_job j Phase.finished = 0
holds_job j (Phase.holding k) = if k == j then 1 else 0

abbrev pub busy : Phase → ℕ
busy Phase.waiting = 1
busy Phase.fetching = 1
busy Phase.leaving = 1
busy Phase.finished = 0
busy (Phase.holding k) = 1

-- A thread past the last job has seen the counter at the end, and a held job exists.
abbrev pub PhaseFits : ℕ → ℕ → Phase → Type 0
PhaseFits total counter Phase.waiting = Unit
PhaseFits total counter Phase.fetching = Unit
PhaseFits total counter Phase.leaving = total ≤ counter
PhaseFits total counter Phase.finished = total ≤ counter
PhaseFits total counter (Phase.holding k) = k < total

abbrev pub caller : Team → Phase
caller s = get_or s.threads 0 Phase.finished

pub record IsTeam (total : ℕ) (s : Team) : Type 0 where
  pub once :
      (j : ℕ)
      → j < total
      → times j s.executed + sum_of (holds_job j) s.threads ≡ (if ltb j s.counter then 1 else 0)
  pub only : All (λ c. c.1 < total) s.executed
  pub fits : All (PhaseFits total s.counter) s.threads
  pub counted : s.pending + busy (caller s) ≡ sum_of busy s.threads
  pub returned : caller s ≡ Phase.finished → s.pending ≡ 0
  pub some_caller : s.threads ≢ []

PhaseFits-later : (total a b : ℕ) (p : Phase) → a ≤ b → PhaseFits total a p → PhaseFits total b p
PhaseFits-later total a b Phase.waiting h f = tt
PhaseFits-later total a b Phase.fetching h f = tt
PhaseFits-later total a b Phase.leaving h f = omega arith
PhaseFits-later total a b Phase.finished h f = omega arith
PhaseFits-later total a b (Phase.holding k) h f = f

All-PhaseFits_later :
    (total a b : ℕ) (ps : List Phase)
    → a ≤ b
    → All (PhaseFits total a) ps
    → All (PhaseFits total b) ps
All-PhaseFits_later total a b [] h f = tt
All-PhaseFits_later total a b (p ∷ ps) h f =
    (PhaseFits-later total a b p h f.0, All-PhaseFits_later total a b ps h f.1)

caller-set :
    (ps : List Phase) (t : ℕ) (p : Phase)
    → ps ≢ []
    → get_or (set ps t p) 0 Phase.finished ≡ (if t == 0 then p else get_or ps 0 Phase.finished)
caller-set [] t p n = absurd (n refl)
caller-set (q ∷ ps) zero p n = refl
caller-set (q ∷ ps) (suc t) p n = ground arith

set-ne-nil : (ps : List Phase) (t : ℕ) (p : Phase) → ps ≢ [] → set ps t p ≢ []
set-ne-nil [] t p n = n
set-ne-nil (q ∷ ps) zero p n = λ e. cc
set-ne-nil (q ∷ ps) (suc t) p n = λ e. cc

caller-first :
    (ps : List Phase) (p : Phase) → get_elem? ps 0 ≡ some p → get_or ps 0 Phase.finished ≡ p
caller-first [] p e = cc
caller-first (q ∷ ps) p e = cc

abbrev pub taken : Team → ℕ → ℕ
taken s j = if ltb j s.counter then 1 else 0

module _ (total : ℕ) (s : Team) (v : IsTeam total s) (t : ℕ) (p : Phase)
    (e : get_elem? s.threads t ≡ some p) where
  -- The state after a move of one thread.
  abbrev pub after : ℕ → ℕ → Phase → List (ℕ × ℕ) → Team
  after c q p' ex = record { counter = c; pending = q; threads = set s.threads t p'; executed = ex }

  pub after-IsTeam :
      (c q : ℕ) (p' : Phase) (ex : List (ℕ × ℕ))
      → s.counter ≤ c
      → ((j : ℕ)
          → j < total
          → times j ex + holds_job j p' + taken s j
            ≡ times j s.executed + holds_job j p + (if ltb j c then 1 else 0))
      → All (λ x. x.1 < total) ex
      → PhaseFits total c p'
      → q + busy (if t == 0 then p' else caller s) + busy p ≡ s.pending + busy (caller s) + busy p'
      → ((if t == 0 then p' else caller s) ≡ Phase.finished → q ≡ 0)
      → IsTeam total (after c q p' ex)
  after-IsTeam c q p' ex later jobs only fits count back =
      let first = caller-set s.threads t p' v.some_caller in
      record {
        once =
            λ j h. omega (arith, v.once j h, jobs j h, sum_of-set (holds_job j) s.threads t p' p e);
        only = only;
        fits =
            All-set (PhaseFits total c) s.threads t p'
              (All-PhaseFits_later total s.counter c s.threads later v.fits) fits;
        counted = rw first (omega (arith, v.counted, count, sum_of-set busy s.threads t p' p e));
        returned = λ h. back (sym first ∙ h);
        some_caller = set-ne-nil s.threads t p' v.some_caller;
      }

  pub fits_now : PhaseFits total s.counter p
  fits_now = All-get_elem? (PhaseFits total s.counter) s.threads t p v.fits e

  pub caller_now : t ≡ 0 → caller s ≡ p
  caller_now h = caller-first s.threads p (subst (λ (k : ℕ). get_elem? s.threads k ≡ some p) h e)

  -- A thread that stays busy.
  pub stays-IsTeam :
      (c : ℕ) (p' : Phase) (ex : List (ℕ × ℕ))
      → s.counter ≤ c
      → ((j : ℕ)
          → j < total
          → times j ex + holds_job j p' + taken s j
            ≡ times j s.executed + holds_job j p + (if ltb j c then 1 else 0))
      → All (λ x. x.1 < total) ex
      → PhaseFits total c p'
      → busy p ≡ 1
      → busy p' ≡ 1
      → IsTeam total (after c s.pending p' ex)
  stays-IsTeam c p' ex later jobs only fits b b' =
      after-IsTeam c s.pending p' ex later jobs only fits count back
    where
      count :
          s.pending + busy (if t == 0 then p' else caller s) + busy p
          ≡ s.pending + busy (caller s) + busy p'
      count = elim (Bool-cases (t == 0)) [
        | inl h ↦ rw (h, caller_now (ground arith)) (omega arith)
        | inr h ↦ rw h (omega arith)
      ]

      back : (if t == 0 then p' else caller s) ≡ Phase.finished → s.pending ≡ 0
      back = elim (Bool-cases (t == 0)) [
        | inl h ↦ rw h (λ d. let bad = ap busy d in absurd (omega arith))
        | inr h ↦ rw h v.returned
      ]
