-- ===== src/Tests.antt =====
-- Concrete runs of the theorems.
mod Files
mod Tokens
mod Threads
mod Draws
use palm_infra.Common.{
  ℕ, add64, ◌+◌, ◌*◌, ◌/◌, ◌≤◌, ◌<◌, ltb, min, max, Bool, true, false, Option, none, some, List, [],
  ◌∷◌, ℤ, pos, ◌≡◌, refl, ap, ◌↔◌, ◌⊎◌, inl, inr, arith, if◌then◌else◌, length, any_of, word_mod,
  word_max, float_zero, int_lt, int_eq, ◌-◌, Float32, leb,
}
use palm_infra.BufferPool.{
  BufferPool, round_up, grow, align_down, acquire_bucket, release_bucket, find_active,
}
use palm_infra.BufferPool.Buckets.{half_word, round_up_lem, grow-align_down_never}
use palm_infra.BufferPool.Accounts.{IsCounted, acquire_bucket-IsCounted, release_bucket-IsCounted}
use palm_infra.ByteRanges.{normalize_byte_ranges, range_contains}
use palm_infra.ByteRanges.Merging.{IsNormal, covers}
use palm_infra.ByteRanges.Laws.{
  normalize_byte_ranges-IsNormal, range_contains-normalize_byte_ranges,
}
use palm_infra.ExpertCache.Spec.{
  TensorSpec, component_range_fits, data_file_offset, components_fit_expert_stride,
}
use palm_infra.ExpertCache.Ranges.{
  stride_of, component_range_fits_iff, data_file_offset_exact, components_IsApart, IsApart,
}
use palm_infra.ExpertCache.State.{
  Entry, EntryState, Cache, Config, Policy, LayerLayout, LayerMap, deref,
  layer_capacity_bytes_locked,
}
use palm_infra.ExpertCache.Victim.{is_busy, victim_key, is_predicted, scan_global}
use palm_infra.ExpertCache.Preferences.{IsCircle, gives_way, global_victim_before_cycles}
use palm_infra.ExpertCache.Remove.{remove_entry}
use palm_infra.ExpertCache.Eviction.{capacity_for, exhausted}
use palm_infra.ExpertCache.Reserve.{reserve_entry, reserve_room}
use palm_infra.ExpertCache.Notes.{has_expert}
use palm_infra.ExpertCache.Request.{request_many_impl}
use palm_infra.ExpertCache.Acquire.{acquire_start}
use palm_infra.ExpertCache.Configure.{baseline, share_out}
use palm_infra.ExpertCache.Quotas.{AreQuotasOf, IsStreamable, granted_sum, share_out-baseline}
use palm_infra.ExpertCache.Register.{add_source}
use palm_infra.ExpertCache.Registration.{IsAnswer, add_source-IsAnswer}
use palm_infra.ExpertCache.Reads.{finish_reads, every, finish_reads_lem, remove_entry_refused}
use palm_infra.ExpertCache.Advice.{
  recommended_prefetch_count, drops_rank, can_prefetch_pairs, submit_cross_layer_task,
}
use palm_infra.ExpertCache.Retain.{next_retained, in_range}
use palm_infra.ExpertCache.Prefetching.{
  recommended_prefetch_count_bounds, can_prefetch_pairs_fits, submit_cross_layer_task_bound,
}
use palm_infra.ExpertCache.Retention.{next_retained_holds}
use palm_infra.ExpertCache.Store.Bounds.{has_layer}
use palm_infra.ExpertCache.Store.Admission.{IsWellFormed, Reserved}
use palm_infra.ExpertCache.Store.Reservation.{reserve_entry-Reserved}
use palm_infra.ExpertCache.Store.Calls.{Kept, Held}
use palm_infra.ExpertCache.Store.Requests.{request_many_impl-Kept}
use palm_infra.ExpertCache.Store.Progressing.{acquire_start-Held}
use palm_infra.ExpertCache.System.{
  rest, next, requesting, starting, Run-IsWellFormed, empty-IsWellFormed,
}
use palm_infra.ExpertCache.Sample.{config, policy, gate, down, opened, spec_at, stale_entry}

round_up_lem_example :
    (q : ℕ) × (round_up 5000 ≡ some q)
    × (5000 ≤ q)
    × (q ≤ half_word)
    × ((q ≡ 1024) ⊎ (q < 2 * ((max 5000 1024 + 63) / 64 * 64)))
round_up_lem_example = round_up_lem 5000 (omega arith)

grow-align_down_never_example :
    grow 1000 1024 (align_down (add64 (max 9223372036854775872 1024) 63)) ≡ none
grow-align_down_never_example =
    grow-align_down_never 1000 9223372036854775872 (omega arith) (omega arith)

one_active : BufferPool
one_active = record {
  free = λ b. [];
  active_allocs = (64, 1024) ∷ [];
  active_bytes = 1024;
  peak = 2048;
  acquire_count = 1;
  release_count = 0;
}

one_active-IsCounted : IsCounted one_active
unfolding one_active
one_active-IsCounted = record { total = refl; below_peak = omega arith }

acquire_bucket-IsCounted_example : IsCounted (acquire_bucket one_active 4096 (some 128)).0
unfolding one_active find_active
acquire_bucket-IsCounted_example =
    acquire_bucket-IsCounted one_active 4096 (some 128) one_active-IsCounted (omega arith)
      (λ p list h. ground (arith, h)) (λ p h. ground (arith, h))

release_bucket-IsCounted_example : IsCounted (release_bucket one_active 64 1024)
unfolding one_active
release_bucket-IsCounted_example =
    release_bucket-IsCounted one_active 64 1024 one_active-IsCounted (omega arith)

opened-IsWellFormed : IsWellFormed opened
unfolding layer_capacity_bytes_locked
opened-IsWellFormed = empty-IsWellFormed opened 1 (omega arith)

routed : Cache
routed = (request_many_impl opened (some gate) (some down) (pos 1 ∷ pos 2 ∷ []) false [] word_max).0

routed-Kept : Kept opened routed
unfolding routed int_eq
routed-Kept =
    request_many_impl-Kept opened gate down (pos 1 ∷ pos 2 ∷ []) false [] word_max
      opened-IsWellFormed refl

routed_registered : has_layer (pos 0) routed.config.layers ≡ true
unfolding int_eq
routed_registered = ap (λ (k : Config). has_layer (pos 0) k.layers) routed-Kept.config

-- A request for two experts, then the acquire of a third one.
Run-IsWellFormed_example : IsWellFormed (acquire_start routed gate down (pos 3) true).0
unfolding routed int_eq
Run-IsWellFormed_example =
    Run-IsWellFormed opened (acquire_start routed gate down (pos 3) true).0
      (next opened routed _
        (next opened opened _ (rest opened)
          (requesting opened gate down (pos 1 ∷ pos 2 ∷ []) false [] word_max refl))
        (starting routed gate down (pos 3) true routed_registered))
      opened-IsWellFormed

reserve_entry-Reserved_example :
    Reserved false float_zero gate down
      (pos 1)
      opened
      (reserve_entry opened gate down (pos 1) false float_zero)
    × ¬ (reserve_room opened (pos 0) (pos 1) 200 false float_zero ≡ exhausted)
unfolding int_eq
reserve_entry-Reserved_example =
    reserve_entry-Reserved opened gate down (pos 1) false float_zero 200 opened-IsWellFormed refl

request_many_impl-Kept_example :
    Kept opened
      (request_many_impl opened
        (some gate)
        (some down)
        (pos 1 ∷ pos 2 ∷ pos 3 ∷ [])
        false
        []
        word_max).0
unfolding int_eq
request_many_impl-Kept_example =
    request_many_impl-Kept opened gate down (pos 1 ∷ pos 2 ∷ pos 3 ∷ []) false [] word_max
      opened-IsWellFormed refl

acquire_start-Held_example : Held opened (acquire_start opened gate down (pos 3) true).0
unfolding int_eq
acquire_start-Held_example =
    acquire_start-Held opened gate down (pos 3) true opened-IsWellFormed refl

normalize_byte_ranges-IsNormal_example :
    IsNormal 50 (normalize_byte_ranges ((30, 40) ∷ (0, 10) ∷ (5, 8) ∷ []) 50)
normalize_byte_ranges-IsNormal_example =
    normalize_byte_ranges-IsNormal ((30, 40) ∷ (0, 10) ∷ (5, 8) ∷ []) 50 (omega arith)

range_contains-normalize_byte_ranges_example :
    range_contains (normalize_byte_ranges ((30, 40) ∷ (0, 10) ∷ (5, 8) ∷ []) 50) 12
    ≡ any_of (covers 50 12) ((30, 40) ∷ (0, 10) ∷ (5, 8) ∷ [])
range_contains-normalize_byte_ranges_example =
    range_contains-normalize_byte_ranges ((30, 40) ∷ (0, 10) ∷ (5, 8) ∷ []) 50 12 (omega arith)

component_range_fits_iff_example :
    (component_range_fits 100 50 60 (pos 3) 1000 ≡ true)
    ↔ ((◌≡◌ {A = ℕ} 50 0) ⊎ ((0 < 3) × ((e : ℕ) → e < 3 → 100 + e * stride_of 60 50 + 50 ≤ 1000)))
component_range_fits_iff_example = component_range_fits_iff 100 50 60 (pos 3) 1000 (omega arith)

data_file_offset_exact_example :
    (data_file_offset (spec_at 1 400) (pos 3) ≡ 400 + 3 * stride_of 0 100)
    × (data_file_offset (spec_at 1 400) (pos 3) + 100 ≤ 1000)
unfolding component_range_fits
data_file_offset_exact_example =
    data_file_offset_exact (spec_at 1 400) 4 1000 3 (omega arith) (omega arith) refl (omega arith)

interleaved : TensorSpec
interleaved = record (spec_at 1 0) { scales_offset = 100; scales_bytes = 20; expert_stride = 120 }

components_IsApart_example :
    ((◌≡◌ {A = ℕ} 0 2) ⊎ IsApart (0 + 0 * 120) 100 (0 + 2 * 120) 100)
    × ((◌≡◌ {A = ℕ} 0 2) ⊎ IsApart (100 + 0 * 120) 20 (100 + 2 * 120) 20)
    × IsApart (0 + 0 * 120) 100 (100 + 2 * 120) 20
unfolding components_fit_expert_stride interleaved
components_IsApart_example = components_IsApart interleaved 0 2 refl (omega arith) (omega arith)

loading_entry : Entry
loading_entry = record (stale_entry 0 1) { state = EntryState.loading; pending_reads = 2 }

finish_reads_lem_example :
    ((finish_reads (true ∷ false ∷ []) loading_entry).state
      ≡ (if every (true ∷ false ∷ []) then EntryState.ready else EntryState.failed))
    × ((finish_reads (true ∷ false ∷ []) loading_entry).pending_reads ≡ 0)
unfolding loading_entry
finish_reads_lem_example =
    finish_reads_lem (true ∷ false ∷ []) loading_entry refl (omega arith) refl

remove_entry_refused_example : (remove_entry routed 1 true ≡ none) ↔ (
    (deref routed.store.entries 1 ≡ none)
    ⊎ ((e : Entry) × (deref routed.store.entries 1 ≡ some e) × (is_busy e ≡ true)))
remove_entry_refused_example = remove_entry_refused routed 1 true routed-Kept.well_formed.consistent

share_out-baseline_example :
    let layouts : LayerMap LayerLayout =
      λ l. some (record { num_experts = pos 4; pair_bytes = 200 }) in
    let shared = share_out 1 (1000 - 400) (
      record { layer = pos 0; pair_bytes = 200; num_experts = 4; granted = 200 }
      ∷ record { layer = pos 1; pair_bytes = 200; num_experts = 4; granted = 200 }
      ∷ []) in
    AreQuotasOf layouts (pos 0 ∷ pos 1 ∷ []) shared
    × IsStreamable shared
    × (granted_sum shared ≤ 1000)
    × (1 < 2 → granted_sum shared ≡ 1000)
unfolding baseline int_lt
share_out-baseline_example =
    share_out-baseline (λ l. some (record { num_experts = pos 4; pair_bytes = 200 })) 1000 1
      (pos 0 ∷ pos 1 ∷ []) _ 400 refl

add_source-IsAnswer_example : IsAnswer config (spec_at 13 0) (add_source config 13 (spec_at 13 0))
unfolding int_eq
add_source-IsAnswer_example = add_source-IsAnswer config 13 (spec_at 13 0) (omega arith)

next_retained_holds_example :
    let r = next_retained gate down 2 [] (pos 1 ∷ pos 3 ∷ []) (stale_entry 0 1 ∷ []) in
    (length r ≤ 2)
    × ((y : ℤ)
        → has_expert y (pos 1 ∷ pos 3 ∷ []) ≡ true
        → in_range gate y ≡ true
        → (length r ≡ 2) ⊎ (has_expert y r ≡ true))
next_retained_holds_example =
    next_retained_holds gate down 2 [] (pos 1 ∷ pos 3 ∷ []) (stale_entry 0 1 ∷ []) (omega arith)

-- Four hits in five.
abbrev below_four_fifths : ℕ → ℕ → Bool
below_four_fifths hits attempts = ltb (hits * 5) (attempts * 4)

recommended_prefetch_count_bounds_example :
    let m = recommended_prefetch_count below_four_fifths policy 8 in
    (min (max 1 (8 / 2)) 3 ≤ m)
    × (m ≤ 8)
    × ((rank : ℕ) → m ≤ rank → rank < 8 → drops_rank below_four_fifths policy rank ≡ true)
    × ((rank : ℕ)
        → palm_infra.Common.suc rank ≡ m
        → (palm_infra.Common.suc rank ≡ min (max 1 (8 / 2)) 3)
          ⊎ (drops_rank below_four_fifths policy rank ≡ false))
recommended_prefetch_count_bounds_example =
    recommended_prefetch_count_bounds below_four_fifths policy 8 (omega arith)

can_prefetch_pairs_fits_example : (0 < 2) × (2 * 200 ≤ capacity_for config (pos 0))
unfolding can_prefetch_pairs int_eq int_lt palm_infra.ExpertCache.State.expert_capacity_bytes
can_prefetch_pairs_fits_example = can_prefetch_pairs_fits opened gate down 2 200 refl refl

submit_cross_layer_task_bound_example :
    length (submit_cross_layer_task opened 9).0.queues.cross_layer_tasks ≤ 2
submit_cross_layer_task_bound_example = submit_cross_layer_task_bound opened 9 (omega arith)

-- In the third layer of a pass: entries of the layers 7, 5 and 1, of an earlier pass.
abbrev at_layer_three : Policy
at_layer_three = record policy { active_layer = pos 3 }

circle : IsCircle config at_layer_three false (stale_entry 7 3) (stale_entry 5 1) (stale_entry 1 2)
unfolding victim_key int_lt is_busy is_predicted
circle = record {
  rank_x = refl;
  rank_y = refl;
  ahead_x = refl;
  ahead_y = refl;
  passed_z = refl;
  deeper = refl;
  unpredicted_x = refl;
  unpredicted_y = refl;
  unpredicted_z = refl;
  used_y = omega arith;
  used_z = omega arith;
  idle_x = refl;
  idle_y = refl;
  idle_z = refl;
}

global_victim_before_cycles_example :
    (gives_way config at_layer_three false (stale_entry 7 3) (stale_entry 5 1) ≡ true)
    × (gives_way config at_layer_three false (stale_entry 5 1) (stale_entry 1 2) ≡ true)
    × (gives_way config at_layer_three false (stale_entry 1 2) (stale_entry 7 3) ≡ true)
    × (scan_global config at_layer_three false none
          (stale_entry 7 3 ∷ stale_entry 5 1 ∷ stale_entry 1 2 ∷ [])
        ≡ some (stale_entry 1 2))
    × (scan_global config at_layer_three false none
          (stale_entry 5 1 ∷ stale_entry 1 2 ∷ stale_entry 7 3 ∷ [])
        ≡ some (stale_entry 7 3))
    × (scan_global config at_layer_three false none
          (stale_entry 1 2 ∷ stale_entry 7 3 ∷ stale_entry 5 1 ∷ [])
        ≡ some (stale_entry 5 1))
global_victim_before_cycles_example =
    global_victim_before_cycles config at_layer_three false (stale_entry 7 3) (stale_entry 5 1)
      (stale_entry 1 2) circle
