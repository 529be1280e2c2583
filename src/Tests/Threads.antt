-- ===== src/Tests/Threads.antt =====
-- Concrete runs of the theorems on the thread pool.
use palm_infra.Common.{ℕ, ◌<◌, ◌≡◌, arith, some, List, [], ◌∷◌, sum_of}
use palm_infra.Threading.{Shard, Tile, parallel_for_impl, decode_2d_job, total_2d_jobs}
use palm_infra.Threading.Shards.{covers, within, covers-parallel_for_impl}
use palm_infra.Threading.Tiles.{InTile, InTile-decode_2d_job}
use palm_infra.Threading.Stealing.{Phase, Team, Move}

covers-parallel_for_impl_example :
    (calls : List Shard) × (parallel_for_impl 4 0 10 2 ≡ some calls)
    × ((i : ℕ) → sum_of (covers i) calls ≡ within 0 10 i)
covers-parallel_for_impl_example = covers-parallel_for_impl 4 0 10 2 (omega arith) (omega arith)

InTile-decode_2d_job_example :
    (total : ℕ) × (j : ℕ) × (tile : Tile) × (total_2d_jobs 20 8 30 16 ≡ some total)
    × (j < total)
    × (decode_2d_job j 20 8 30 16 ≡ some tile)
    × InTile 9 17 tile
    × ((k : ℕ) (other : Tile) → decode_2d_job k 20 8 30 16 ≡ some other → InTile 9 17 other → k ≡ j)
InTile-decode_2d_job_example =
    InTile-decode_2d_job 20 8 30 16 (omega arith) (omega arith) (omega arith) (omega arith) 9 17
      (omega arith) (omega arith) (omega arith)

-- The caller takes the only job, and the worker comes too late.
abbrev one_job : List Move
one_job =
    Move.fetch 0
    ∷ Move.wake 1
    ∷ Move.fetch 1
    ∷ Move.execute 0
    ∷ Move.leave 1
    ∷ Move.fetch 0
    ∷ Move.leave 0
    ∷ []

abbrev after_one_job : Team
after_one_job = record {
  counter = 3;
  pending = 0;
  threads = Phase.finished ∷ Phase.finished ∷ [];
  executed = (0, 0) ∷ [];
}
