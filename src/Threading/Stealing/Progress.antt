-- ===== src/Threading/Stealing/Progress.antt =====
-- runtime/threading.cpp: the threads that share the jobs of a grid come to an end.
use palm_infra.Common.{ℕ, ◌+◌, ◌-◌, ◌*◌, ◌<◌, Option, none, some, sum_of, ◌≡◌}
use palm_infra.Threading.Stealing.{Phase, Team, Move, move}

-- What a thread has before it at most, without the jobs that are left.
abbrev weight : Phase → ℕ
weight Phase.waiting = 3
weight Phase.fetching = 2
weight Phase.leaving = 1
weight Phase.finished = 0
weight (Phase.holding j) = 3

abbrev remaining : ℕ → Team → ℕ
remaining total s = 2 * (total - s.counter) + sum_of weight s.threads

abbrev Below : ℕ → ℕ → Option Team → Type 0
Below total n none = Unit
Below total n (some s) = remaining total s < n

abbrev pub Can : ℕ → Team → Type 0
Can total s = (m : Move) × (s' : Team) × (move total s m ≡ some s')
