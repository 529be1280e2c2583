-- ===== src/Threading.antt =====
-- runtime/threading.cpp: how the thread pool splits a range and a grid. The source's int values are
-- non-negative here; a call in which one of them would overflow, which C++ leaves undefined, is `none`.
-- The workers' hand-over is in Stealing.
pub mod Shards
pub mod Tiles
pub mod Stealing
use palm_infra.Common.{
  ℕ, zero, suc, ◌+◌, ◌-◌, ◌*◌, ◌/◌, ◌%◌, min, max, ltb, leb, ◌==◌, Bool, true, false, not, ◌&&◌,
  ◌||◌, Option, none, some, List, [], ◌∷◌, ◌++◌, if◌then◌else◌,
}

-- A call of the function: its thread and the range.
pub record Shard : Type 0 where
  pub thread : ℕ
  pub begin : ℕ
  pub end : ℕ

abbrev pub chunks : ℕ → ℕ → ℕ
chunks total chunk = (total + chunk - 1) / chunk

-- The first index of a shard, before it is cut at the end.
abbrev pub shard_start : ℕ → ℕ → ℕ → ℕ → ℕ → ℕ
shard_start begin total chunk active t = begin + chunks total chunk * t / active * chunk

-- Whether an int can hold a number.
abbrev pub fits_int : ℕ → Bool
fits_int n = leb n 2147483647

-- The inner `none` is the answer false, for an empty shard too. The tests are of the largest value in
-- each expression: the sums and products in between are smaller.
unfoldable pub compute_shard : ℕ → ℕ → ℕ → ℕ → ℕ → Option (Option (ℕ × ℕ))
compute_shard begin end grain_size active_threads thread_id =
    let total = end - begin in
    if total == 0 || active_threads == 0 || leb active_threads thread_id
    then some none
    else let chunk = max grain_size 1 in
      let shard_begin = shard_start begin total chunk active_threads thread_id in
      let next_begin = shard_start begin total chunk active_threads (thread_id + 1) in
      let shard_end = min next_begin end in
      if not (
        fits_int (total + chunk)
        && fits_int (chunks total chunk * (thread_id + 1))
        && fits_int shard_begin
        && fits_int next_begin)
      then none
      else some (if ltb shard_begin shard_end then some (shard_begin, shard_end) else none)

unfoldable pub shard_calls : ℕ → Option (ℕ × ℕ) → List Shard
shard_calls t none = []
shard_calls t (some (b, e)) = record { thread = t; begin = b; end = e } ∷ []

-- The shards of the threads below a number.
unfoldable pub static_calls : ℕ → ℕ → ℕ → ℕ → ℕ → Option (List Shard)
static_calls begin end grain active zero = some []
static_calls begin end grain active (suc t) =
    let before = static_calls begin end grain active t in
    elim before [
      | none ↦ none
      | some calls ↦ elim (compute_shard begin end grain active t) [
        | none ↦ none
        | some shard ↦ some (calls ++ shard_calls t shard)
      ]
    ]

unfoldable pub active_threads_for : ℕ → ℕ → ℕ
active_threads_for num_threads total_chunks = min num_threads (max total_chunks 1)

-- The calls of the function, thread by thread.
unfoldable pub parallel_for_impl : ℕ → ℕ → ℕ → ℕ → Option (List Shard)
parallel_for_impl num_threads begin end grain_size =
    if leb end begin
    then some []
    else let grain = max grain_size 1 in
      let active = active_threads_for num_threads (chunks (end - begin) grain) in
      if not (fits_int (end - begin + grain))
      then none
      else if leb active 1
      then some (record { thread = 0; begin = begin; end = end } ∷ [])
      else static_calls begin end grain active active

-- A tile of the grid.
pub record Tile : Type 0 where
  pub m_begin : ℕ
  pub m_end : ℕ
  pub n_begin : ℕ
  pub n_end : ℕ

unfoldable pub decode_2d_job : ℕ → ℕ → ℕ → ℕ → ℕ → Option Tile
decode_2d_job job_idx m_total m_tile_size n_total n_block_size =
    let m_tiles = chunks m_total m_tile_size in
    let m_begin = job_idx % m_tiles * m_tile_size in
    let n_begin = job_idx / m_tiles * n_block_size in
    if not (
      fits_int (m_total + m_tile_size)
      && fits_int (m_begin + m_tile_size)
      && fits_int (n_begin + n_block_size))
    then none
    else some (record {
      m_begin = m_begin;
      m_end = min (m_begin + m_tile_size) m_total;
      n_begin = n_begin;
      n_end = min (n_begin + n_block_size) n_total;
    })

unfoldable pub total_2d_jobs : ℕ → ℕ → ℕ → ℕ → Option ℕ
total_2d_jobs m_total m_tile_size n_total n_block_size =
    let total_jobs = chunks m_total m_tile_size * chunks n_total n_block_size in
    if not
      (fits_int (m_total + m_tile_size) && fits_int (n_total + n_block_size) && fits_int total_jobs)
    then none
    else some total_jobs
