-- ===== src/ExpertCache/Request.antt =====
-- request_many_impl of cache.cpp, and the entry points that call it.
use palm_infra.Common.{
  ℕ, ◌+◌, min, ltb, ◌==◌, Bool, true, false, not, ◌&&◌, ◌||◌, if◌then◌else◌, Option, none, some,
  List, [], ◌∷◌, ◌++◌, ℤ, pos, int_lt, any_of, length, take, get_or, add64, word_max, Float32,
  float_zero, float_max,
}
use palm_infra.ExpertCache.Spec.{TensorSource}
use palm_infra.ExpertCache.State.{
  Entry, EntryState, IoJob, Cache, Policy, is_loading, valid_pair, find_entry, put, bump,
}
use palm_infra.ExpertCache.Remove.{remove_entry, counters_of}
use palm_infra.ExpertCache.Eviction.{resolve}
use palm_infra.ExpertCache.Reserve.{reserve_entry}
use palm_infra.ExpertCache.Io.{modify, enqueue_entry_reads}
use palm_infra.ExpertCache.Notes.{has_expert, note_request}

-- The state of the loop that touches the resident members of the route.
pub record Walk : Type 0 where
  pub cache : Cache
  pub seen : List ℤ
  pub missing : List (ℤ × Float32)
  pub demanded_loading : List ℕ

-- Drops a failed entry, so that it is read again.
unfoldable pub find_live : Cache → TensorSource → TensorSource → ℤ → Cache × Option Entry
find_live c gate_up down expert = elim (find_entry c.store gate_up down expert) [
  | none ↦ (c, none)
  | some e ↦ elim e.state [
    | EntryState.failed ↦ elim (remove_entry c e.address false) [
      | none ↦ (c, some e)
      | some (c', removed) ↦ (c', none)
    ]
    | _ ↦ (c, some e)
  ]
]

unfoldable pub refresh : Policy → Bool → Float32 → Entry → Entry
refresh p speculative confidence e =
    let touched = record e { used_at = bump p.clock; forward_epoch = p.forward_epoch } in
    if speculative
    then record touched {
      prediction_epoch = p.forward_epoch;
      prediction_confidence = float_max e.prediction_confidence confidence;
    }
    else touched

unfoldable pub touch_resident : Walk → Entry → Bool → Float32 → Walk
unfolding refresh
touch_resident w e speculative confidence =
    let c = w.cache in
    record w {
      cache = record c {
        store = record c.store {
          entries = modify e.address (refresh c.policy speculative confidence) c.store.entries;
        };
        policy = record c.policy { clock = bump c.policy.clock };
      };
      demanded_loading =
          if not speculative && is_loading e
          then w.demanded_loading ++ e.address ∷ []
          else w.demanded_loading;
    }

-- One expert of the route.
unfoldable pub walk_one : TensorSource → TensorSource → Bool → Walk → ℤ → Float32 → Walk
walk_one gate_up down speculative w expert confidence =
    if int_lt expert (pos 0)
      || not (int_lt expert gate_up.spec.num_experts)
      || has_expert expert w.seen
    then w
    else let (c, found) = find_live w.cache gate_up down expert in
      let w' : Walk = record w { cache = c; seen = w.seen ++ expert ∷ [] } in
      elim found [
        | some e ↦ touch_resident w' e speculative confidence
        | none ↦ record w' { missing = w.missing ++ (expert, confidence) ∷ [] }
      ]

-- `index` counts up from the front of the route.
unfoldable pub walk_route :
    TensorSource → TensorSource → Bool → List Float32 → ℕ → Walk → List ℤ → Walk
walk_route gate_up down speculative confidence index w [] = w
walk_route gate_up down speculative confidence index w (expert ∷ rest) =
    let predicted =
      if speculative && ltb index (length confidence)
      then float_max float_zero (get_or confidence index float_zero)
      else float_zero in
    walk_route gate_up down speculative confidence (index + 1)
      (walk_one gate_up down speculative w expert predicted) rest

abbrev holds_pointer : ℕ → List ℕ → Bool
holds_pointer p = any_of (λ q. q == p)

-- The advisory jobs of demanded entries, and the ones that stay, each in their order.
unfoldable pub split_jobs : List ℕ → List IoJob → List IoJob × List IoJob
split_jobs demanded [] = ([], [])
split_jobs demanded (job ∷ jobs) =
    let (promoted, kept) = split_jobs demanded jobs in
    if holds_pointer job.entry demanded
    then (record job { speculative = false } ∷ promoted, kept)
    else (promoted, job ∷ kept)

-- The jobs of a prediction that has come true go behind the demand jobs.
unfoldable pub promote : Cache → List ℕ → Cache
unfolding split_jobs
promote c demanded =
    let (promoted, kept) = split_jobs demanded c.queues.low_priority_io_jobs in
    record c {
      queues = record c.queues {
        io_jobs = c.queues.io_jobs ++ promoted;
        low_priority_io_jobs = kept;
      };
    }

unfoldable pub count_reserved : Cache → ℤ → Bool → Bool → Cache
unfolding counters_of
count_reserved c layer speculative admitted =
    let k = c.counters in
    let l = counters_of k layer in
    if not admitted
    then (if speculative
        then record c { counters = record k { cross_layer_rejected = bump k.cross_layer_rejected } }
        else c)
    else if speculative
    then record c {
      counters = record k {
        cross_layer_experts = bump k.cross_layer_experts;
        layer_stats =
            put k.layer_stats layer (record l { prefetch_admitted = bump l.prefetch_admitted });
      };
    }
    else record c { counters = record k { misses = bump k.misses } }

-- The loop that reserves an entry for each missing expert. `queued` collects their pointers.
unfoldable pub reserve_missing :
    TensorSource → TensorSource → Bool → Cache → List ℕ → List (ℤ × Float32) → Cache × List ℕ
reserve_missing gate_up down speculative c queued [] = (c, queued)
reserve_missing gate_up down speculative c queued ((expert, confidence) ∷ rest) =
    let (c', p) = reserve_entry c gate_up down expert speculative confidence in
    elim p [
      | none ↦
          reserve_missing gate_up down speculative
            (count_reserved c' gate_up.spec.layer speculative false) queued rest
      | some q ↦
          reserve_missing gate_up down speculative
            (count_reserved c' gate_up.spec.layer speculative true) (queued ++ q ∷ []) rest
    ]

unfoldable pub count_selected : Cache → ℤ → Bool → ℕ → Cache
unfolding counters_of
count_selected c layer speculative count =
    let k = c.counters in
    let l = counters_of k layer in
    if speculative
    then record c {
      counters = record k {
        layer_stats =
            put k.layer_stats layer
              (record l { prefetch_selected = add64 l.prefetch_selected count });
      };
    }
    else c

-- The locked part, past the pair's check: the walk, the promotion, the reservations and the jobs.
unfoldable pub request_locked :
    Cache → TensorSource → TensorSource → List ℤ → Bool → List Float32 → ℕ → Cache
request_locked c gate_up down experts speculative confidence request_count =
    let layer = gate_up.spec.layer in
    let count = min (length experts) request_count in
    let noted = note_request c layer experts speculative confidence in
    let start : Walk = record {
      cache = count_selected noted layer speculative count;
      seen = [];
      missing = [];
      demanded_loading = [];
    } in
    let w = walk_route gate_up down speculative confidence 0 start (take count experts) in
    let promoted = if speculative then w.cache else promote w.cache w.demanded_loading in
    let routed = if speculative then promoted else record promoted {
      policy = record promoted.policy {
        layer_route_widths = put promoted.policy.layer_route_widths layer (length w.seen);
      };
    } in
    let (reserved, queued) = reserve_missing gate_up down speculative routed [] w.missing in
    enqueue_entry_reads reserved (resolve reserved.store.entries queued) speculative

-- `none` is the null pointer.
unfoldable pub request_many_impl :
    Cache
    → Option TensorSource
    → Option TensorSource
    → List ℤ
    → Bool
    → List Float32
    → ℕ
    → Cache × Bool
request_many_impl c (some gate_up) (some down) experts speculative confidence request_count =
    if valid_pair c.config gate_up down (pos 0)
    then (request_locked c gate_up down experts speculative confidence request_count, true)
    else (c, false)
request_many_impl c (some gate_up) none experts speculative confidence request_count = (c, false)
request_many_impl c none down experts speculative confidence request_count = (c, false)

-- static_cast<size_t>(-1) is the default request count.
unfoldable pub request_many :
    Cache → Option TensorSource → Option TensorSource → List ℤ → Cache × Bool
request_many c gate_up down experts = request_many_impl c gate_up down experts false [] word_max

unfoldable pub prefetch_many :
    Cache → Option TensorSource → Option TensorSource → List ℤ → List Float32 → ℕ → Cache × Bool
prefetch_many c gate_up down experts confidence prefetch_count =
    request_many_impl c gate_up down experts true confidence prefetch_count
