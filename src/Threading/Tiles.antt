-- ===== src/Threading/Tiles.antt =====
-- runtime/threading.cpp: the tiles of a grid.
use palm_infra.Common.{
  ℕ, ◌+◌, ◌-◌, ◌*◌, ◌/◌, ◌%◌, ◌≤◌, ◌<◌, ◌≡◌, sym, ◌∙◌, arith, refl, subst, min, some, Bool, not,
  ◌&&◌, false, Bool-cases, inl, inr,
}
use native.Mathlib.Nat.{
  div-add-mod', div-mul-le_self, lt-div-mul-add, div-lt_iff_lt-mul, div-eq_of_lt-le, mod-eq_of_lt,
  mul-add-mod_self_right,
}
use palm_infra.Threading.{Tile, chunks, fits_int, decode_2d_job, total_2d_jobs}
use palm_infra.Threading.Shards.{chunks-enough}

abbrev pub InTile : ℕ → ℕ → Tile → Type 0
InTile m n t = (t.m_begin ≤ m) × (m < t.m_end) × (t.n_begin ≤ n) × (n < t.n_end)

-- The number of the block with an index in it.
block_of : (b size i : ℕ) → b * size ≤ i → i < b * size + size → i / size ≡ b
block_of b size i h k = div-eq_of_lt-le {k = b} size h (omega (arith, add_one_mul b size))
  where
    add_one_mul : (b size : ℕ) → (b + 1) * size ≡ b * size + size
    add_one_mul b size = grind arith

block-lt : (i total size : ℕ) → 0 < size → i < total → i / size < chunks total size
block-lt i total size h k =
    let enough = chunks-enough total size h in
    (div-lt_iff_lt-mul {x = i} {y = chunks total size} h).1 (omega arith)

-- A job's number from its column and row, and back.
job-mod : (a b w : ℕ) → b < w → (a * w + b) % w ≡ b
job-mod a b w h = mul-add-mod_self_right a w b ∙ mod-eq_of_lt h

job-div : (a b w : ℕ) → b < w → (a * w + b) / w ≡ a
job-div a b w h = block_of a w (a * w + b) (omega arith) (omega arith)

job-lt : (a b w n : ℕ) → b < w → a < n → a * w + b < w * n
job-lt a b w n h k = grind arith

-- The block of an index ends within one block of the last.
block-bound : (q total size : ℕ) → 0 < size → q < chunks total size → q * size + size < total + size
block-bound q total size h k =
    let whole = div-mul-le_self (total + size - 1) size in
    let step : q * size + size ≤ chunks total size * size = grind (arith, k) in omega arith

module _ (m_total ts n_total nb : ℕ) (some_m : 0 < ts) (some_n : 0 < nb)
    (m_low : m_total + ts ≤ 2147483647) (n_low : n_total + nb ≤ 2147483647) where
  -- The one job for a cell.
  abbrev job_of : ℕ → ℕ → ℕ
  job_of m n = n / nb * chunks m_total ts + m / ts

  abbrev tile_of : ℕ → ℕ → Tile
  tile_of column row = record {
    m_begin = column * ts;
    m_end = min (column * ts + ts) m_total;
    n_begin = row * nb;
    n_end = min (row * nb + nb) n_total;
  }

  decode_2d_job_lem :
      (column row : ℕ)
      → column < chunks m_total ts
      → row < chunks n_total nb
      → decode_2d_job (row * chunks m_total ts + column) m_total ts n_total nb
        ≡ some (tile_of column row)
  unfolding decode_2d_job
  decode_2d_job_lem column row h k =
      let right = block-bound column m_total ts some_m h in
      let bottom = block-bound row n_total nb some_n k in
      let fits : not
            (fits_int (m_total + ts) && fits_int (column * ts + ts) && fits_int (row * nb + nb))
          ≡ false =
        ground arith in
      rw (job-mod row column (chunks m_total ts) h, job-div row column (chunks m_total ts) h, fits)
        refl

  InTile-tile_of : (m n : ℕ) → m < m_total → n < n_total → InTile m n (tile_of (m / ts) (n / nb))
  InTile-tile_of m n h k =
      let m_first = div-mul-le_self m ts in
      let m_last = lt-div-mul-add {a = m} some_m in
      let n_first = div-mul-le_self n nb in
      let n_last = lt-div-mul-add {a = n} some_n in
      (omega arith, omega arith, omega arith, omega arith)

  tile_of_cell :
      (m n column row : ℕ) → InTile m n (tile_of column row) → (m / ts ≡ column) × (n / nb ≡ row)
  tile_of_cell m n column row (a, b, c, d) =
      (block_of column ts m a (omega arith), block_of row nb n c (omega arith))

  InTile-job_of :
      (m n j : ℕ) (tile : Tile)
      → decode_2d_job j m_total ts n_total nb ≡ some tile
      → InTile m n tile
      → j ≡ job_of m n
  unfolding decode_2d_job
  InTile-job_of m n j tile e h = elim (Bool-cases fits) [
    | inl overflow ↦ absurd (ground (arith, e, overflow))
    | inr fine ↦
        let same : tile_of (j % w) (j / w) ≡ tile = ground (arith, e, fine) in
        let (column, row) = tile_of_cell m n (j % w) (j / w) (subst (InTile m n) (sym same) h) in
        sym (div-add-mod' j w) ∙ rw (sym column, sym row) refl
  ]
    where
      w : ℕ
      w = chunks m_total ts

      fits : Bool
      fits =
          not (fits_int (m_total + ts) && fits_int (j % w * ts + ts) && fits_int (j / w * nb + nb))

  -- Where no int overflows, since the sizes of the grid with one more tile each and the number of the
  -- tiles fit: each cell of the grid lies in the tile of exactly one job, which is below the number of
  -- jobs, and the job has a tile.
  pub InTile-decode_2d_job :
      (m n : ℕ)
      → chunks m_total ts * chunks n_total nb ≤ 2147483647
      → m < m_total
      → n < n_total
      → (total : ℕ) × (j : ℕ) × (tile : Tile) × (total_2d_jobs m_total ts n_total nb ≡ some total)
        × (j < total)
        × (decode_2d_job j m_total ts n_total nb ≡ some tile)
        × InTile m n tile
        × ((k : ℕ) (other : Tile)
            → decode_2d_job k m_total ts n_total nb ≡ some other
            → InTile m n other
            → k ≡ j)
  unfolding total_2d_jobs
  InTile-decode_2d_job m n jobs h k =
      let column = block-lt m m_total ts some_m h in
      let row = block-lt n n_total nb some_n k in
      let fits : not (
            fits_int (m_total + ts)
            && fits_int (n_total + nb)
            && fits_int (chunks m_total ts * chunks n_total nb))
          ≡ false =
        ground arith in
      (
        chunks m_total ts * chunks n_total nb,
        job_of m n,
        tile_of (m / ts) (n / nb),
        rw fits refl,
        job-lt (n / nb) (m / ts) (chunks m_total ts) (chunks n_total nb) column row,
        decode_2d_job_lem (m / ts) (n / nb) column row,
        InTile-tile_of m n h k,
        λ j tile e. InTile-job_of m n j tile e,
      )
