-- ===== src/Threading/Shards.antt =====
-- runtime/threading.cpp: the shards of a range.
use palm_infra.Common.{
  ℕ, zero, suc, ◌+◌, ◌-◌, ◌*◌, ◌/◌, ◌≤◌, ◌<◌, min, max, ltb, leb, ◌==◌, false, ◌&&◌, ◌||◌, none,
  some, List, ◌≡◌, ◌∙◌, refl, Option, not, ◌++◌, [], inl, inr, arith, if◌then◌else◌, sum_of,
  sum_of-append, Bool-cases,
}
use native.Mathlib.Nat.{
  mul-zero, zero-mul, zero-div, mul-div_cancel, mul-le-mul_right, mul-le-mul_left, div-mul-le_self,
  lt-div-mul-add, le-div_iff_mul-le, div-lt_iff_lt-mul,
}
use palm_infra.Threading.{
  Shard, chunks, shard_start, compute_shard, shard_calls, static_calls, active_threads_for,
  parallel_for_impl, fits_int,
}

-- Whether an index is in a range, and whether a call covers it, as a number.
abbrev pub within : ℕ → ℕ → ℕ → ℕ
within a b i = if leb a i && ltb i b then 1 else 0

abbrev pub covers : ℕ → Shard → ℕ
covers i s = within s.begin s.end i

-- The chunks are enough for the range.
pub chunks-enough : (total chunk : ℕ) → 0 < chunk → total ≤ chunks total chunk * chunk
chunks-enough total chunk h = let most = lt-div-mul-add {a = total + chunk - 1} h in omega arith

module _ (begin total chunk active : ℕ) (some_chunk : 0 < chunk) (some_thread : 0 < active) where
  start-step :
      (t : ℕ)
      → shard_start begin total chunk active t ≤ shard_start begin total chunk active (t + 1)
  start-step t =
      let jobs = chunks total chunk in
      let below = div-mul-le_self (jobs * t) active in
      let next : t ≤ t + 1 = omega arith in
      let more = mul-le-mul_left jobs next in
      let quotients : jobs * t / active ≤ jobs * (t + 1) / active =
        (le-div_iff_mul-le {x = jobs * t / active} some_thread).1 (omega arith) in
      let scaled = mul-le-mul_right chunk quotients in omega arith

  start-first : shard_start begin total chunk active 0 ≡ begin
  start-first = rw (mul-zero (chunks total chunk), zero-div active, zero-mul chunk) (omega arith)

  start-last : begin + total ≤ shard_start begin total chunk active active
  start-last =
      rw (mul-div_cancel (chunks total chunk) some_thread)
        (omega (arith, chunks-enough total chunk some_chunk))

-- A part of the chunks is no more of them.
part-le : (jobs n active : ℕ) → 0 < active → n ≤ active → jobs * n / active ≤ jobs
part-le jobs n active h k =
    let most = mul-le-mul_left jobs k in
    let below = div-mul-le_self (jobs * n) active in
    let scaled =
      (div-lt_iff_lt-mul {x = jobs * n} {y = jobs + 1} h).1
        (omega (arith, most, add_one_mul jobs active)) in
    omega arith
  where
    add_one_mul : (b size : ℕ) → (b + 1) * size ≡ b * size + size
    add_one_mul b size = grind arith

-- Every shard starts within one chunk of the end.
start-bound :
    (begin total chunk active t : ℕ)
    → 0 < chunk
    → 0 < active
    → t ≤ active
    → shard_start begin total chunk active t < begin + total + chunk
start-bound begin total chunk active t h k l =
    let whole = div-mul-le_self (total + chunk - 1) chunk in
    let part = mul-le-mul_right chunk (part-le (chunks total chunk) t active k l) in omega arith

abbrev covered : ℕ → List Shard → ℕ
covered i calls = sum_of (covers i) calls

-- The range of a call, if there is one.
abbrev range_of : ℕ → ℕ → Option (ℕ × ℕ)
range_of a b = if ltb a b then some (a, b) else none

covered-range : (i t a b : ℕ) → covered i (shard_calls t (range_of a b)) ≡ within a b i
unfolding shard_calls
covered-range i t a b = ground arith

module _ (begin end grain active : ℕ) (nonempty : begin < end) (some_thread : 0 < active) where
  abbrev chunk : ℕ
  chunk = max grain 1

  abbrev start : ℕ → ℕ
  start t = shard_start begin (end - begin) chunk active t

  abbrev shard : ℕ → Option (ℕ × ℕ)
  shard t = range_of (start t) (min (start (t + 1)) end)

  -- The calls of the threads below a number, without the tests for overflow.
  abbrev calls_below : ℕ → List Shard
  calls_below zero = []
  calls_below (suc t) = calls_below t ++ shard_calls t (shard t)

  -- The calls so far cover each index up to the next start once.
  covered-calls_below :
      (i n : ℕ) → n ≤ active → covered i (calls_below n) ≡ within begin (min (start n) end) i
  covered-calls_below i zero k =
      let first = start-first begin (end - begin) chunk active (omega arith) some_thread in
      ground arith
  covered-calls_below i (suc n) k =
      let step = start-step begin (end - begin) chunk active (omega arith) some_thread n in
      let low = start_ge n in
      ground (
        arith,
        covered-calls_below i n,
        covered-range i n (start n) (min (start (n + 1)) end),
        sum_of-append (covers i) (calls_below n) (shard_calls n (shard n)),
      )
    where
      start_ge : (n : ℕ) → begin ≤ start n
      start_ge n = omega arith

  module _ (low : end + chunk ≤ 2147483647)
      (few : chunks (end - begin) chunk * active ≤ 2147483647) where
    compute_shard_lem :
        (t : ℕ) → t < active → compute_shard begin end grain active t ≡ some (shard t)
    unfolding compute_shard
    compute_shard_lem t k =
        let next : t + 1 ≤ active = omega arith in
        let products = mul-le-mul_left (chunks (end - begin) chunk) next in
        let here =
          start-bound begin (end - begin) chunk active t (omega arith) some_thread (omega arith) in
        let there =
          start-bound begin (end - begin) chunk active (t + 1) (omega arith) some_thread next in
        let tests : (end - begin == 0 || active == 0 || leb active t) ≡ false = ground arith in
        let fits : not (
              fits_int (end - begin + chunk)
              && fits_int (chunks (end - begin) chunk * (t + 1))
              && fits_int (start t)
              && fits_int (start (t + 1)))
            ≡ false =
          ground arith in
        rw (tests, fits) refl

    static_calls_lem :
        (n : ℕ) → n ≤ active → static_calls begin end grain active n ≡ some (calls_below n)
    unfolding static_calls
    static_calls_lem zero k = refl
    static_calls_lem (suc n) k =
        rw (static_calls_lem n (omega arith), compute_shard_lem n (omega arith)) refl

active_threads_for-le : (n jobs : ℕ) → active_threads_for n jobs ≤ n
unfolding active_threads_for
active_threads_for-le n jobs = omega arith

-- Where no int overflows, since the end with one more chunk and the product of the chunks with the
-- threads fit: parallel_for calls the function for each index of the range in exactly one call, and
-- for no other index.
pub covers-parallel_for_impl :
    (num_threads begin end grain_size : ℕ)
    → end + max grain_size 1 ≤ 2147483647
    → chunks (end - begin) (max grain_size 1) * num_threads ≤ 2147483647
    → (calls : List Shard) × (parallel_for_impl num_threads begin end grain_size ≡ some calls)
      × ((i : ℕ) → sum_of (covers i) calls ≡ within begin end i)
unfolding parallel_for_impl
covers-parallel_for_impl num_threads begin end grain_size low few =
    elim (Bool-cases (leb end begin)) [
      | inl p ↦ rw p ([], refl, λ i. ground arith)
      | inr p ↦
          let fits : not (fits_int (end - begin + grain)) ≡ false = ground arith in
          elim (Bool-cases (leb active 1)) [
            | inl q ↦ rw (p, fits, q) (_, refl, λ i. ground arith)
            | inr q ↦
                rw (p, fits, q)
                  (
                    calls_below begin end grain active (ground arith) (ground arith) active,
                    static_calls_lem begin end grain active (ground arith) (ground arith)
                        (rw same low) (rw same fewer) active (omega arith),
                    λ i.
                        covered-calls_below begin end grain active (ground arith) (ground arith) i
                          active (omega arith)
                        ∙ all_covered i (ground arith) (ground arith),
                  )
          ]
    ]
  where
    grain : ℕ
    grain = max grain_size 1

    active : ℕ
    active = active_threads_for num_threads (chunks (end - begin) grain)

    same : max grain 1 ≡ grain
    same = omega arith

    fewer : chunks (end - begin) grain * active ≤ 2147483647
    fewer =
        let scaled =
          mul-le-mul_left (chunks (end - begin) grain)
            (active_threads_for-le num_threads (chunks (end - begin) grain)) in
        omega (arith, scaled, few)

    all_covered :
        (i : ℕ)
        → begin < end
        → 0 < active
        → within begin (min (shard_start begin (end - begin) (max grain 1) active active) end) i
          ≡ within begin end i
    all_covered i p q =
        let last = start-last begin (end - begin) (max grain 1) active (omega arith) q in
        ground arith
