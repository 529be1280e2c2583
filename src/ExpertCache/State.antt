-- ===== src/ExpertCache/State.antt =====
-- The state of MoeSsdCache (storage/ssd_expert_cache/cache.h and internal.h), in the build without
-- Apple's buffer pool and without CUDA. Pointers to entries are their addresses; unordered maps are
-- functions into Option.
use palm_infra.Common.{
  ℕ, ◌/◌, ◌==◌, Bool, true, false, not, ◌&&◌, ◌||◌, if◌then◌else◌, Option, none, some, List, [],
  ◌∷◌, ℤ, int_eq, add64, length, Float32, sub64, int_lt, pos,
}
use palm_infra.ExpertCache.Spec.{TensorSource}

-- ++ of a 64-bit counter.
abbrev pub bump : ℕ → ℕ
bump n = add64 n 1

-- A map keyed by layers.
abbrev pub LayerMap {ℓ} : Type ℓ → Type ℓ
LayerMap A = ℤ → Option A

module _ {ℓ} {A : Type ℓ} where
  abbrev pub put : LayerMap A → ℤ → A → LayerMap A
  put m k v l = if int_eq k l then some v else m l

  abbrev pub drop_key : LayerMap A → ℤ → LayerMap A
  drop_key m k l = if int_eq k l then none else m l

  abbrev pub no_keys : LayerMap A
  no_keys l = none

  -- operator[]: the value, or a fresh one.
  abbrev pub value_or : A → Option A → A
  value_or d none = d
  value_or d (some a) = a

-- ResidentArena: one locked allocation, handed out by a bump pointer.
pub record Arena : Type 0 where
  pub capacity : ℕ
  pub used : ℕ
  pub locked : Bool

-- ByteBuffer outside Apple platforms, without its bytes. `in_arena` says that `arena` is set.
pub record ByteBuffer : Type 0 where
  pub length : ℕ
  pub locked : Bool
  pub in_arena : Bool

abbrev pub empty_buffer : ByteBuffer
empty_buffer = record { length = 0; locked = false; in_arena = false }

pub data EntryState : Type 0 where
  loading loading_failed ready failed : EntryState

-- MoeSsdCache::Entry; `address` is the value of pointers to it.
pub record Entry : Type 0 where
  pub address : ℕ
  pub gate_up : TensorSource
  pub down : TensorSource
  pub expert : ℤ
  pub used_at : ℕ
  pub state : EntryState
  pub pending_reads : ℕ
  pub pins : ℕ
  pub fresh_miss : Bool
  pub speculative : Bool
  pub load_origin_speculative : Bool
  pub retained : Bool
  pub forward_epoch : ℕ
  pub prediction_epoch : ℕ
  pub prediction_confidence : Float32
  pub gate_up_data : ByteBuffer
  pub gate_up_scales : ByteBuffer
  pub down_data : ByteBuffer
  pub down_scales : ByteBuffer

-- Entry::bytes(), and capacity_bytes(), which differs from it on Apple platforms only.
unfoldable pub entry_bytes : Entry → ℕ
entry_bytes e =
    add64 (add64 (add64 e.gate_up_data.length e.gate_up_scales.length) e.down_data.length)
      e.down_scales.length

unfoldable pub is_loading : Entry → Bool
is_loading e = elim e.state [
  | EntryState.loading ↦ true
  | EntryState.loading_failed ↦ true
  | EntryState.ready ↦ false
  | EntryState.failed ↦ false
]

unfoldable pub is_failed : Entry → Bool
is_failed e = elim e.state [
  | EntryState.loading ↦ false
  | EntryState.loading_failed ↦ true
  | EntryState.ready ↦ false
  | EntryState.failed ↦ true
]

unfoldable pub is_ready : Entry → Bool
is_ready e = elim e.state [
  | EntryState.loading ↦ false
  | EntryState.loading_failed ↦ false
  | EntryState.ready ↦ true
  | EntryState.failed ↦ false
]

abbrev pub entry_layer : Entry → ℤ
entry_layer e = e.gate_up.spec.layer

-- LayerLayout.
pub record LayerLayout : Type 0 where
  pub num_experts : ℤ
  pub pair_bytes : ℕ

pub record PredictionRecord : Type 0 where
  pub forward_epoch : ℕ
  pub experts : List ℤ
  pub confidence : List Float32

-- LayerCounters, without the wait time.
pub record LayerCounters : Type 0 where
  pub demand_acquires : ℕ
  pub demand_hits : ℕ
  pub demand_misses : ℕ
  pub prediction_attempts : ℕ
  pub prediction_matches : ℕ
  pub prefetch_selected : ℕ
  pub prefetch_admitted : ℕ
  pub unused_prefetch_evictions : ℕ
  pub short_term_reloads : ℕ
  pub acquires_ready_at_lookup : ℕ
  pub acquires_waited : ℕ

abbrev pub no_counts : LayerCounters
no_counts = record {
  demand_acquires = 0;
  demand_hits = 0;
  demand_misses = 0;
  prediction_attempts = 0;
  prediction_matches = 0;
  prefetch_selected = 0;
  prefetch_admitted = 0;
  unused_prefetch_evictions = 0;
  short_term_reloads = 0;
  acquires_ready_at_lookup = 0;
  acquires_waited = 0;
}

-- IoJob, whose vector of entries always has one element (kWindow is 1).
pub record IoJob : Type 0 where
  pub entry : ℕ
  pub component : ℕ
  pub trace_id : ℕ
  pub speculative : Bool

-- The resident entries with their indexes. `next_address` stands for the allocator: an address that
-- no entry has had. entry_locations_ is the position of an address in `entries`.
pub record Store : Type 0 where
  pub entries : List Entry
  pub eviction_entries : List ℕ
  pub layer_entries : LayerMap (List ℕ)
  pub layer_resident_bytes : LayerMap ℕ
  pub resident_bytes : ℕ
  pub resident_arena : Option Arena
  pub next_address : ℕ

-- What open() and the configuration calls fix.
pub record Config : Type 0 where
  pub self : ℕ
  pub page_size : ℕ
  pub is_open : Bool
  pub file_size : ℕ
  pub io_workers_count : ℕ
  pub capacity_bytes : ℕ
  pub buffer_pool : Bool
  pub buffer_reserve_bytes : ℕ
  pub read_alignment : ℕ
  pub lock_expert_pages : Bool
  pub fully_resident : Bool
  pub sources : List TensorSource
  pub layers : List ℤ
  pub layer_layouts : LayerMap LayerLayout
  pub layer_capacity_bytes : LayerMap ℕ
  pub global_capacity_pool : Bool
  pub shallow_favoring_layers : ℤ

-- The state of the replacement policy.
pub record Policy : Type 0 where
  pub clock : ℕ
  pub forward_epoch : ℕ
  pub active_layer : ℤ
  pub layer_route_widths : LayerMap ℕ
  pub retained_experts : LayerMap (List ℤ)
  pub retained_scores : LayerMap (List Float32)
  pub pending_predictions : LayerMap PredictionRecord
  pub prediction_policy_attempts : List ℕ
  pub prediction_policy_hits : List ℕ
  pub last_evicted_epoch : ℕ → Option ℕ

-- The statistics, without times and confidence sums.
pub record Counters : Type 0 where
  pub hits : ℕ
  pub misses : ℕ
  pub evictions : ℕ
  pub bytes_read : ℕ
  pub demand_load_bytes : ℕ
  pub prefetch_load_bytes : ℕ
  pub useful_prefetch_bytes : ℕ
  pub unused_prefetch_bytes : ℕ
  pub expert_bytes_acquired : ℕ
  pub slot_waits : ℕ
  pub cross_layer_tasks_count : ℕ
  pub cross_layer_dropped : ℕ
  pub cross_layer_experts : ℕ
  pub cross_layer_used : ℕ
  pub cross_layer_rejected : ℕ
  pub cross_layer_rank_attempts : List ℕ
  pub cross_layer_rank_hits : List ℕ
  pub layer_stats : LayerMap LayerCounters

-- The job queues, front first, and the predictor's tasks by their names.
pub record Queues : Type 0 where
  pub io_jobs : List IoJob
  pub low_priority_io_jobs : List IoJob
  pub next_trace_id : ℕ
  pub cross_layer_tasks : List ℕ
  pub cross_layer_worker : Bool
  pub stop_io : Bool

pub record Cache : Type 0 where
  pub config : Config
  pub store : Store
  pub policy : Policy
  pub counters : Counters
  pub queues : Queues

unfoldable pub expert_capacity_bytes : Config → ℕ
expert_capacity_bytes c = sub64 c.capacity_bytes c.buffer_reserve_bytes

unfoldable pub layer_capacity_bytes_locked : Config → ℤ → ℕ
unfolding expert_capacity_bytes
layer_capacity_bytes_locked c layer = elim (c.layer_capacity_bytes layer) [
  | some configured ↦ configured
  | none ↦
      if length c.layers == 0
      then expert_capacity_bytes c
      else expert_capacity_bytes c / length c.layers
]

-- valid_pair, past its tests for null pointers.
unfoldable pub valid_pair : Config → TensorSource → TensorSource → ℤ → Bool
valid_pair c gate_up down expert =
    (not c.buffer_pool || not (gate_up.address == down.address))
    && gate_up.cache == c.self
    && down.cache == c.self
    && int_eq gate_up.spec.layer down.spec.layer
    && int_eq gate_up.spec.num_experts down.spec.num_experts
    && not (int_lt expert (pos 0))
    && int_lt expert gate_up.spec.num_experts

-- The entry behind a pointer.
unfoldable pub deref : List Entry → ℕ → Option Entry
deref [] p = none
deref (e ∷ es) p = if e.address == p then some e else deref es p

abbrev pub is_pair : TensorSource → TensorSource → ℤ → Entry → Bool
is_pair gate_up down expert e =
    e.gate_up.address == gate_up.address && e.down.address == down.address && int_eq e.expert expert

-- The loop of find_entry_locked over one layer's pointers.
unfoldable pub find_among : List Entry → TensorSource → TensorSource → ℤ → List ℕ → Option Entry
find_among es gate_up down expert [] = none
find_among es gate_up down expert (p ∷ ps) = elim (deref es p) [
  | none ↦ find_among es gate_up down expert ps
  | some e ↦ if is_pair gate_up down expert e then some e else find_among es gate_up down expert ps
]

unfoldable pub find_entry : Store → TensorSource → TensorSource → ℤ → Option Entry
unfolding deref find_among
find_entry s gate_up down expert = elim (s.layer_entries gate_up.spec.layer) [
  | none ↦ none
  | some ps ↦ find_among s.entries gate_up down expert ps
]
