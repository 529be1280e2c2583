-- ===== src/BufferPool.antt =====
-- runtime/host_buffer_pool.cpp: the power-of-two free lists of host buffers, in the default build
-- with active tracking. A pointer is a number, 0 for null; the result of posix_memalign is an
-- argument. A failed assertion stands for its release build: the call returns.
pub mod Buckets
pub mod Accounts
use palm_infra.Common.{
  ℕ, zero, suc, ◌+◌, ◌-◌, ◌*◌, ◌%◌, ltb, ◌==◌, Bool, true, false, Option, none, some, List, [], ◌∷◌,
  if◌then◌else◌, add64, mul64, sub64, length, max, not,
}

abbrev pub min_bucket : ℕ
min_bucket = 1024

-- The loop that doubles, on fuel; `none` is the loop that has run out of it.
unfoldable pub grow : ℕ → ℕ → ℕ → Option ℕ
grow zero p bytes = none
grow (suc n) p bytes = let rest = grow n (mul64 p 2) bytes in if ltb p bytes then rest else some p

-- bytes & ~63.
unfoldable pub align_down : ℕ → ℕ
align_down bytes = bytes - bytes % 64

unfoldable pub round_up : ℕ → Option ℕ
round_up bytes = grow 54 min_bucket (align_down (add64 (max bytes min_bucket) 63))

pub record BufferPool : Type 0 where
  pub free : ℕ → List ℕ
  pub active_allocs : List (ℕ × ℕ)
  pub active_bytes : ℕ
  pub peak : ℕ
  pub acquire_count : ℕ
  pub release_count : ℕ

unfoldable pub find_active : ℕ → List (ℕ × ℕ) → Option ℕ
find_active p [] = none
find_active p ((q, bucket) ∷ rest) = if q == p then some bucket else find_active p rest

unfoldable pub erase_active : ℕ → List (ℕ × ℕ) → List (ℕ × ℕ)
erase_active p [] = []
erase_active p ((q, bucket) ∷ rest) = if q == p then rest else (q, bucket) ∷ erase_active p rest

-- active_allocs_[p] = bucket.
unfoldable pub set_active_alloc : ℕ → ℕ → List (ℕ × ℕ) → List (ℕ × ℕ)
unfolding erase_active
set_active_alloc p bucket active = (p, bucket) ∷ erase_active p active

abbrev pub put_bucket : (ℕ → List ℕ) → ℕ → List ℕ → ℕ → List ℕ
put_bucket free bucket list b = if b == bucket then list else free b

-- The end of acquire, for either source of the buffer.
unfoldable pub hand_out : BufferPool → ℕ → ℕ → BufferPool
unfolding set_active_alloc
hand_out pool p bucket = record pool {
  active_allocs = set_active_alloc p bucket pool.active_allocs;
  active_bytes = add64 pool.active_bytes bucket;
  peak = max pool.peak (add64 pool.active_bytes bucket);
}

-- The head of a free list is the back of the vector; `fresh` is what the allocator gives, and 0 is
-- returned for null.
unfoldable pub acquire_bucket : BufferPool → ℕ → Option ℕ → BufferPool × ℕ
unfolding hand_out
acquire_bucket pool bucket fresh =
    let counted = record pool { acquire_count = add64 pool.acquire_count 1 } in
    elim (pool.free bucket) [
      | p ∷ list ↦
          (hand_out (record counted { free = put_bucket pool.free bucket list }) p bucket, p)
      | [] ↦ elim fresh [ none ↦ (counted, 0) | some p ↦ (hand_out counted p bucket, p) ]
    ]

-- `none`: the call does not return.
unfoldable pub acquire : BufferPool → ℕ → Option ℕ → Option (BufferPool × ℕ)
unfolding round_up acquire_bucket
acquire pool bytes fresh = elim (round_up bytes) [
  | none ↦ none
  | some bucket ↦ some (acquire_bucket pool bucket fresh)
]

unfoldable pub release_bucket : BufferPool → ℕ → ℕ → BufferPool
unfolding find_active erase_active
release_bucket pool p bucket = elim (find_active p pool.active_allocs) [
  | none ↦ pool
  | some held ↦ if not (held == bucket) then pool else record pool {
    release_count = add64 pool.release_count 1;
    active_allocs = erase_active p pool.active_allocs;
    active_bytes = sub64 pool.active_bytes bucket;
    free = put_bucket pool.free bucket (p ∷ pool.free bucket);
  }
]

unfoldable pub release_buffer : BufferPool → ℕ → ℕ → Option BufferPool
unfolding round_up release_bucket
release_buffer pool p bytes =
    if p == 0
    then some pool
    else elim (round_up bytes) [ none ↦ none | some bucket ↦ some (release_bucket pool p bucket) ]

unfoldable pub clear : BufferPool → BufferPool
clear pool = record pool { free = λ b. []; active_allocs = []; active_bytes = 0 }
