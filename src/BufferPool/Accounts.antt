-- ===== src/BufferPool/Accounts.antt =====
-- The buffer pool's count of the bytes in use.
use palm_infra.Common.{
  ℕ, ◌+◌, ◌≤◌, ◌<◌, ◌==◌, not, Option, none, some, List, [], ◌∷◌, add64, word_mod, sum_of, ◌≡◌,
  refl, ap, arith, Bool-cases, Option-cases, inl, inr,
}
use palm_infra.BufferPool.{
  BufferPool, find_active, erase_active, set_active_alloc, hand_out, acquire_bucket, release_bucket,
  put_bucket,
}

abbrev pub bytes_of : List (ℕ × ℕ) → ℕ
bytes_of = sum_of (λ (a : ℕ × ℕ). a.1)

-- The count of active bytes is the sum over the active buffers, and the peak is no smaller.
pub record IsCounted (pool : BufferPool) : Type 0 where
  pub total : pool.active_bytes ≡ bytes_of pool.active_allocs
  pub below_peak : pool.active_bytes ≤ pool.peak

erase_absent :
    (p : ℕ) (active : List (ℕ × ℕ)) → find_active p active ≡ none → erase_active p active ≡ active
unfolding find_active erase_active
erase_absent p [] h = refl
erase_absent p ((q, bucket) ∷ rest) h = ground (arith, h, erase_absent p rest)

bytes-erase_active :
    (p bucket : ℕ) (active : List (ℕ × ℕ))
    → find_active p active ≡ some bucket
    → bytes_of (erase_active p active) + bucket ≡ bytes_of active
unfolding find_active erase_active
bytes-erase_active p bucket [] h = ground (arith, h)
bytes-erase_active p bucket ((q, b) ∷ rest) h = ground (arith, h, bytes-erase_active p bucket rest)

hand_out-IsCounted :
    (pool : BufferPool) (p bucket : ℕ)
    → IsCounted pool
    → find_active p pool.active_allocs ≡ none
    → pool.active_bytes + bucket < word_mod
    → IsCounted (hand_out pool p bucket)
unfolding hand_out set_active_alloc
hand_out-IsCounted pool p bucket w new small =
    let same = ap bytes_of (erase_absent p pool.active_allocs new) in
    record { total = omega (arith, same, w.total, small); below_peak = omega arith }

-- While the bytes in use stay below a word, and buffers on a free list or from the allocator are not
-- in use: acquiring a bucket keeps the count the sum of the buckets in use and the peak above it.
pub acquire_bucket-IsCounted :
    (pool : BufferPool) (bucket : ℕ) (fresh : Option ℕ)
    → IsCounted pool
    → pool.active_bytes + bucket < word_mod
    → ((p : ℕ) (list : List ℕ)
        → pool.free bucket ≡ p ∷ list
        → find_active p pool.active_allocs ≡ none)
    → ((p : ℕ) → fresh ≡ some p → find_active p pool.active_allocs ≡ none)
    → IsCounted (acquire_bucket pool bucket fresh).0
unfolding acquire_bucket
acquire_bucket-IsCounted pool bucket fresh w small reused new =
    go (pool.free bucket) refl fresh refl
  where
    counted : BufferPool
    counted = record pool { acquire_count = add64 pool.acquire_count 1 }

    go :
        (l : List ℕ)
        → pool.free bucket ≡ l
        → (f : Option ℕ) → fresh ≡ f
        → IsCounted
            (elim l as (λ _. BufferPool × ℕ) [
              | p ∷ list ↦ (
                hand_out (record counted { free = put_bucket pool.free bucket list }) p bucket,
                p,
              )
              | [] ↦ elim f [ none ↦ (counted, 0) | some p ↦ (hand_out counted p bucket, p) ]
            ]).0
    go (p ∷ list) h f k =
        hand_out-IsCounted (record counted { free = put_bucket pool.free bucket list }) p bucket
          (record { total = w.total; below_peak = w.below_peak }) (reused p list h) small
    go [] h none k = record { total = w.total; below_peak = w.below_peak }
    go [] h (some p) k =
        hand_out-IsCounted counted p bucket (record { total = w.total; below_peak = w.below_peak })
          (new p k) small

-- Releasing a buffer, whichever pointer and bucket come in, keeps the count right.
pub release_bucket-IsCounted :
    (pool : BufferPool) (p bucket : ℕ)
    → IsCounted pool
    → pool.active_bytes < word_mod
    → IsCounted (release_bucket pool p bucket)
unfolding release_bucket
release_bucket-IsCounted pool p bucket w small =
    elim (Option-cases (find_active p pool.active_allocs)) [
      | inl foreign ↦ rw (release_bucket, foreign) w
      | inr (held, found) ↦ elim (Bool-cases (not (held == bucket))) [
        | inl mismatch ↦ rw (release_bucket, found, mismatch) w
        | inr same ↦
            let kept = bytes-erase_active p held pool.active_allocs found in
            let equal : held ≡ bucket = ground (arith, same) in
            rw (release_bucket, found, same)
              (record {
                total = omega (arith, kept, equal, w.total, small);
                below_peak = omega (arith, kept, equal, w.total, w.below_peak, small);
              })
      ]
    ]
