-- ===== src/ExpertCache/Sample.antt =====
-- A small cache for concrete runs: one layer of four experts whose pairs take 200 bytes, in a shared
-- pool of 450.
use palm_infra.Common.{ℕ, true, false, none, [], ◌∷◌, pos, negsuc, float_zero}
use palm_infra.Precision.{Precision}
use palm_infra.ExpertCache.Spec.{TensorSpec, TensorSource}
use palm_infra.ExpertCache.State.{
  Entry, EntryState, Cache, Config, Policy, Counters, Queues, put, no_keys, empty_buffer,
}
use palm_infra.ExpertCache.System.{empty_store}

abbrev pub spec_at : ℕ → ℕ → TensorSpec
spec_at name offset = record {
  weight_ref = name ∷ [];
  layer = pos 0;
  num_experts = pos 4;
  rows = pos 10;
  cols = pos 5;
  precision = Precision.fp16;
  flags = 0;
  group_size = 0;
  groups_per_row = 0;
  data_offset = offset;
  data_bytes = 100;
  scales_offset = 0;
  scales_bytes = 0;
  expert_stride = 0;
  input_scales = [];
  input_scales_per_expert = 0;
}

abbrev pub source_at : ℕ → ℕ → TensorSource
source_at address offset = record {
  address = address;
  spec = spec_at address offset;
  cache = 7;
  input_scales = [];
  input_scales_per_expert = 0;
}

abbrev pub gate : TensorSource
gate = source_at 11 0

abbrev pub down : TensorSource
down = source_at 12 400

abbrev pub config : Config
config = record {
  self = 7;
  page_size = 4096;
  is_open = true;
  file_size = 1000;
  io_workers_count = 1;
  capacity_bytes = 450;
  buffer_pool = false;
  buffer_reserve_bytes = 0;
  read_alignment = 0;
  lock_expert_pages = false;
  fully_resident = false;
  sources = gate ∷ down ∷ [];
  layers = pos 0 ∷ [];
  layer_layouts = put no_keys (pos 0) (record { num_experts = pos 4; pair_bytes = 200 });
  layer_capacity_bytes = no_keys;
  global_capacity_pool = true;
  shallow_favoring_layers = pos 0;
}

abbrev pub policy : Policy
policy = record {
  clock = 0;
  forward_epoch = 1;
  active_layer = negsuc 0;
  layer_route_widths = no_keys;
  retained_experts = no_keys;
  retained_scores = no_keys;
  pending_predictions = no_keys;
  prediction_policy_attempts = [];
  prediction_policy_hits = [];
  last_evicted_epoch = λ key. none;
}

abbrev pub counters : Counters
counters = record {
  hits = 0;
  misses = 0;
  evictions = 0;
  bytes_read = 0;
  demand_load_bytes = 0;
  prefetch_load_bytes = 0;
  useful_prefetch_bytes = 0;
  unused_prefetch_bytes = 0;
  expert_bytes_acquired = 0;
  slot_waits = 0;
  cross_layer_tasks_count = 0;
  cross_layer_dropped = 0;
  cross_layer_experts = 0;
  cross_layer_used = 0;
  cross_layer_rejected = 0;
  cross_layer_rank_attempts = [];
  cross_layer_rank_hits = [];
  layer_stats = no_keys;
}

abbrev pub queues : Queues
queues = record {
  io_jobs = [];
  low_priority_io_jobs = [];
  next_trace_id = 1;
  cross_layer_tasks = [];
  cross_layer_worker = true;
  stop_io = false;
}

abbrev pub opened : Cache
opened = record {
  config = config;
  store = empty_store 1;
  policy = policy;
  counters = counters;
  queues = queues;
}

-- A ready entry of the last forward pass, at a layer.
abbrev pub stale_entry : ℕ → ℕ → Entry
stale_entry layer used_at = record {
  address = 1;
  gate_up = record gate { spec = record gate.spec { layer = pos layer } };
  down = down;
  expert = pos 0;
  used_at = used_at;
  state = EntryState.ready;
  pending_reads = 0;
  pins = 0;
  fresh_miss = false;
  speculative = false;
  load_origin_speculative = false;
  retained = false;
  forward_epoch = 0;
  prediction_epoch = 0;
  prediction_confidence = float_zero;
  gate_up_data = empty_buffer;
  gate_up_scales = empty_buffer;
  down_data = empty_buffer;
  down_scales = empty_buffer;
}
