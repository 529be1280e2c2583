-- ===== src/ExpertCache/Advice.antt =====
-- What the cache tells its callers (cache.cpp, provider.cpp): how many predicted experts are worth
-- reading, which pairs fit, what is resident; the bounded queue of the predictor's tasks; release of
-- an entry; and the leases of a whole resident layer.
use palm_infra.Common.{
  ℕ, zero, suc, ◌+◌, ◌/◌, ltb, leb, ◌==◌, min, max, Bool, true, false, not, ◌&&◌, ◌||◌,
  if◌then◌else◌, Option, none, some, List, [], ◌∷◌, ◌++◌, ℤ, pos, int_lt, length, get_elem?, get_or,
}
use palm_infra.ExpertCache.Spec.{TensorSource, expert_pair_bytes}
use palm_infra.ExpertCache.State.{
  Cache, Policy, is_loading, is_failed, is_ready, valid_pair, find_entry, bump,
}
use palm_infra.ExpertCache.Remove.{remove_entry}
use palm_infra.ExpertCache.Eviction.{capacity_for}
use palm_infra.ExpertCache.Notes.{has_expert}
use palm_infra.ExpertCache.Acquire.{pin}

-- `poor hits attempts` is the test hits / attempts < 0.80 of the source, on doubles.
module _ (poor : ℕ → ℕ → Bool) where
  -- Whether the loop of recommended_prefetch_count drops the rank.
  unfoldable pub drops_rank : Policy → ℕ → Bool
  drops_rank p rank = elim (get_elem? p.prediction_policy_attempts rank) [
    | none ↦ false
    | some attempts ↦ leb 128 attempts && poor (get_or p.prediction_policy_hits rank 0) attempts
  ]

  unfoldable pub narrow : Policy → ℕ → ℕ → ℕ
  unfolding drops_rank
  narrow p minimum zero = zero
  narrow p minimum (suc rank) =
      let narrower = narrow p minimum rank in
      if ltb minimum (suc rank) && drops_rank p rank then narrower else suc rank

  unfoldable pub recommended_prefetch_count : Policy → ℕ → ℕ
  unfolding narrow
  recommended_prefetch_count p predicted_count =
      if predicted_count == 0
      then 0
      else narrow p (min (max 1 (predicted_count / 2)) 3) predicted_count

-- The task is named by a number; a null function is refused before.
unfoldable pub submit_cross_layer_task : Cache → ℕ → Cache × Bool
submit_cross_layer_task c task =
    if c.queues.stop_io
      || not c.queues.cross_layer_worker
      || leb 2 (length c.queues.cross_layer_tasks)
    then (
      record c {
        counters = record c.counters { cross_layer_dropped = bump c.counters.cross_layer_dropped };
      },
      false,
    )
    else (
      record c {
        queues = record c.queues { cross_layer_tasks = c.queues.cross_layer_tasks ++ task ∷ [] };
        counters = record c.counters {
          cross_layer_tasks_count = bump c.counters.cross_layer_tasks_count;
        };
      },
      true,
    )

unfoldable pub can_prefetch_pairs : Cache → TensorSource → TensorSource → ℕ → Bool
unfolding valid_pair expert_pair_bytes capacity_for
can_prefetch_pairs c gate_up down pairs =
    if not (valid_pair c.config gate_up down (pos 0)) || pairs == 0
    then false
    else elim (expert_pair_bytes c.config.page_size gate_up down c.config.read_alignment) [
      | none ↦ false
      | some pair_bytes ↦ leb pair_bytes (capacity_for c.config gate_up.spec.layer / pairs)
    ]

-- The lookup of resident_count and contains.
unfoldable pub is_resident : Cache → TensorSource → TensorSource → ℤ → Bool
unfolding find_entry is_failed
is_resident c gate_up down expert = elim (find_entry c.store gate_up down expert) [
  | none ↦ false
  | some e ↦ not (is_failed e)
]

unfoldable pub count_resident : Cache → TensorSource → TensorSource → List ℤ → List ℤ → ℕ
unfolding is_resident
count_resident c gate_up down seen [] = 0
count_resident c gate_up down seen (expert ∷ experts) =
    let past = count_resident c gate_up down seen experts in
    let others = count_resident c gate_up down (expert ∷ seen) experts in
    if int_lt expert (pos 0)
      || not (int_lt expert gate_up.spec.num_experts)
      || has_expert expert seen
    then past
    else (if is_resident c gate_up down expert then 1 else 0) + others

unfoldable pub resident_count : Cache → TensorSource → TensorSource → List ℤ → ℕ
unfolding valid_pair count_resident
resident_count c gate_up down experts =
    if valid_pair c.config gate_up down (pos 0) then count_resident c gate_up down [] experts else 0

unfoldable pub contains : Cache → TensorSource → TensorSource → ℤ → Bool
unfolding valid_pair is_resident
contains c gate_up down expert =
    valid_pair c.config gate_up down expert && is_resident c gate_up down expert

unfoldable pub is_pair_ready : Cache → TensorSource → TensorSource → ℤ → Bool
unfolding valid_pair find_entry is_ready
is_pair_ready c gate_up down expert =
    valid_pair c.config gate_up down expert
    && elim (find_entry c.store gate_up down expert) [ none ↦ false | some e ↦ is_ready e ]

-- release(), which evict() of the provider calls.
unfoldable pub release : Cache → TensorSource → TensorSource → ℤ → Cache × Bool
unfolding valid_pair find_entry is_loading remove_entry
release c gate_up down expert =
    if not (valid_pair c.config gate_up down expert)
    then (c, false)
    else elim (find_entry c.store gate_up down expert) [
      | none ↦ (c, false)
      | some e ↦ if is_loading e then (c, false) else elim (remove_entry c e.address true) [
        | none ↦ (c, false)
        | some (removed, entry) ↦ (removed, true)
      ]
    ]

-- The first loop of borrow_resident_layer, over the experts from `first` on: their pointers, or its
-- error.
unfoldable pub ready_layer : Cache → TensorSource → TensorSource → ℕ → ℕ → Option (List ℕ)
unfolding find_entry is_loading is_failed
ready_layer c gate_up down first zero = some []
ready_layer c gate_up down first (suc count) =
    let rest = ready_layer c gate_up down (suc first) count in
    elim (find_entry c.store gate_up down (pos first)) [
      | none ↦ none
      | some e ↦
          if is_loading e || is_failed e
          then none
          else elim rest [ none ↦ none | some pointers ↦ some (e.address ∷ pointers) ]
    ]

unfoldable pub pin_all : Cache → List ℕ → Cache
unfolding pin
pin_all c [] = c
pin_all c (p ∷ ps) = pin_all (pin c p) ps

abbrev pub natural : ℤ → ℕ
natural (pos n) = n
natural other = 0

unfoldable pub borrow_resident_layer : Cache → TensorSource → TensorSource → Cache × Option (List ℕ)
unfolding valid_pair ready_layer pin_all
borrow_resident_layer c gate_up down =
    if not c.config.fully_resident || not (valid_pair c.config gate_up down (pos 0))
    then (c, none)
    else elim (ready_layer c gate_up down 0 (natural gate_up.spec.num_experts)) [
      | none ↦ (c, none)
      | some pointers ↦ (pin_all c pointers, some pointers)
    ]
