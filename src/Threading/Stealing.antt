-- ===== src/Threading/Stealing.antt =====
-- runtime/threading.cpp: the jobs of a grid taken by the threads from one counter, from the signal to
-- the workers until parallel_for_2d_impl returns, as interleaved moves of the threads. The thread with
-- number 0 is the caller.
pub mod Once
pub mod Moves
pub mod Progress
use palm_infra.Common.{
  ℕ, zero, suc, ◌+◌, ◌-◌, ltb, ◌==◌, Bool, true, false, Option, none, some, List, [], ◌∷◌, set,
  get_elem?, replicate, if◌then◌else◌,
}

-- Before it sees the signal; about to take a number; with a job; past the last job; and done, which for
-- the caller is its return.
pub data Phase : Type 0 where
  waiting fetching leaving finished : Phase
  holding : ℕ → Phase

pub record Team : Type 0 where
  pub counter : ℕ
  pub pending : ℕ
  pub threads : List Phase
  -- Thread and job of each call of the function, the last one first.
  pub executed : List (ℕ × ℕ)

-- The state after the signal.
unfoldable pub launch : ℕ → Team
launch active_threads = record {
  counter = 0;
  pending = active_threads - 1;
  threads = Phase.fetching ∷ replicate (active_threads - 1) Phase.waiting;
  executed = [];
}

-- What a thread does next.
pub data Move : Type 0 where
  wake fetch execute leave : ℕ → Move

abbrev pub with_phase : Team → ℕ → Phase → Team
with_phase s t p = record s { threads = set s.threads t p }

pub wake_thread : Team → ℕ → Phase → Option Team
wake_thread s t Phase.waiting = some (with_phase s t Phase.fetching)
wake_thread s t Phase.fetching = none
wake_thread s t Phase.leaving = none
wake_thread s t Phase.finished = none
wake_thread s t (Phase.holding j) = none

-- current_chunk.fetch_add(1), and the test of the loop.
abbrev pub take_number : ℕ → Team → ℕ → Team
take_number total s t =
    with_phase (record s { counter = s.counter + 1 }) t
      (if ltb s.counter total then Phase.holding s.counter else Phase.leaving)

pub fetch_job : ℕ → Team → ℕ → Phase → Option Team
fetch_job total s t Phase.fetching = some (take_number total s t)
fetch_job total s t Phase.waiting = none
fetch_job total s t Phase.leaving = none
fetch_job total s t Phase.finished = none
fetch_job total s t (Phase.holding j) = none

pub execute_job : Team → ℕ → Phase → Option Team
execute_job s t (Phase.holding j) =
    some (with_phase (record s { executed = (t, j) ∷ s.executed }) t Phase.fetching)
execute_job s t Phase.waiting = none
execute_job s t Phase.fetching = none
execute_job s t Phase.leaving = none
execute_job s t Phase.finished = none

-- The caller returns when no worker is pending, and a worker signals that it is done.
abbrev pub depart : Team → ℕ → Option Team
depart s t =
    if t == 0
    then (if s.pending == 0 then some (with_phase s t Phase.finished) else none)
    else some (with_phase (record s { pending = s.pending - 1 }) t Phase.finished)

pub leave_thread : Team → ℕ → Phase → Option Team
leave_thread s t Phase.leaving = depart s t
leave_thread s t Phase.waiting = none
leave_thread s t Phase.fetching = none
leave_thread s t Phase.finished = none
leave_thread s t (Phase.holding j) = none

-- The move with the thread's phase; `none` if the thread is not there or not ready for it.
pub move_at : ℕ → Team → Move → Phase → Option Team
unfolding wake_thread fetch_job execute_job leave_thread
move_at total s (Move.wake t) p = wake_thread s t p
move_at total s (Move.fetch t) p = fetch_job total s t p
move_at total s (Move.execute t) p = execute_job s t p
move_at total s (Move.leave t) p = leave_thread s t p

abbrev pub thread_of : Move → ℕ
thread_of (Move.wake t) = t
thread_of (Move.fetch t) = t
thread_of (Move.execute t) = t
thread_of (Move.leave t) = t

unfoldable pub move : ℕ → Team → Move → Option Team
unfolding move_at
move total s m = elim (get_elem? s.threads (thread_of m)) [
  | none ↦ none
  | some p ↦ move_at total s m p
]

-- Any interleaving; `none` if a move is not possible where it stands.
unfoldable pub moves : ℕ → Team → List Move → Option Team
unfolding move
moves total s [] = some s
moves total s (m ∷ ms) = elim (move total s m) [ none ↦ none | some s' ↦ moves total s' ms ]
