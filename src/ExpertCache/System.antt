-- ===== src/ExpertCache/System.antt =====
-- The cache as a state machine: the calls of any number of threads, cut where the source gives up
-- the mutex, in any order.
use palm_infra.Common.{
  ℕ, Bool, true, false, not, ◌||◌, none, some, List, [], ℤ, ◌≡◌, refl, arith, Bool-cases, inl, inr,
  Float32,
}
use palm_infra.ExpertCache.Spec.{TensorSpec, TensorSource}
use palm_infra.ExpertCache.State.{
  Entry, IoJob, Cache, Store, valid_pair, no_keys, expert_capacity_bytes, entry_bytes,
  layer_capacity_bytes_locked,
}
use palm_infra.ExpertCache.Eviction.{used_for}
use palm_infra.ExpertCache.Io.{complete_job, take_job}
use palm_infra.ExpertCache.Request.{request_many_impl}
use palm_infra.ExpertCache.Acquire.{acquire_start, acquire_retry, acquire_finish, release_lease}
use palm_infra.ExpertCache.Advice.{release, submit_cross_layer_task, borrow_resident_layer}
use palm_infra.ExpertCache.Retain.{retain_for_next_forward}
use palm_infra.ExpertCache.Configure.{
  begin_forward_pass, clear_resident, is_empty, any_busy, configure_shallow_favoring,
  set_global_capacity_pool, set_buffer_reuse_capacity,
}
use palm_infra.ExpertCache.Register.{add_source}
use palm_infra.ExpertCache.Store.Bounds.{has_layer, IsSized}
use palm_infra.ExpertCache.Store.Admission.{IsWellFormed}
use palm_infra.ExpertCache.Store.Calls.{aside-Kept}
use palm_infra.ExpertCache.Store.Requests.{request_many_impl-Kept}
use palm_infra.ExpertCache.Store.Progressing.{acquire_start-Held, acquire_retry-Held}
use palm_infra.ExpertCache.Store.Configuring.{
  IsPlain, configure_shallow_favoring-IsWellFormed, set_global_capacity_pool-IsWellFormed,
  set_buffer_reuse_capacity-IsWellFormed, borrow_resident_layer-IsWellFormed,
}
use palm_infra.ExpertCache.Store.Registering.{IsOpenTo, add_source-IsWellFormed}
use palm_infra.ExpertCache.Store.Retaining.{
  retain_for_next_forward-IsWellFormed, submit_cross_layer_task-IsWellFormed,
}
use palm_infra.ExpertCache.Store.Acquiring.{
  acquire_finish-IsWellFormed, release_lease-IsWellFormed, complete_job-Kept, release-Kept,
  begin_forward_pass-IsWellFormed,
}

-- One piece under the mutex, of every call of the model that changes the cache; request_many and
-- prefetch_many call request_many_impl. The sources that a request or an acquire is given are of
-- registered layers; a source of a new layer is added while nothing is resident and no quotas are set.
pub data Step : Cache → Cache → Type 0 where
  requesting :
      (c : Cache) (gate_up down : TensorSource) (experts : List ℤ) (speculative : Bool)
      (confidence : List Float32) (request_count : ℕ)
      → has_layer gate_up.spec.layer c.config.layers ≡ true
      → Step c
          (request_many_impl c
            (some gate_up)
            (some down)
            experts
            speculative
            confidence
            request_count).0
  starting :
      (c : Cache) (gate_up down : TensorSource) (expert : ℤ) (wait : Bool)
      → has_layer gate_up.spec.layer c.config.layers ≡ true
      → Step c (acquire_start c gate_up down expert wait).0
  retrying :
      (c : Cache) (gate_up down : TensorSource) (expert : ℤ) (ready : Bool)
      → has_layer gate_up.spec.layer c.config.layers ≡ true
      → Step c (acquire_retry c gate_up down expert ready).0
  finishing :
      (c : Cache) (p : ℕ) (ready waited keep_pin : Bool)
      → Step c (acquire_finish c p ready waited keep_pin).0
  returning : (c : Cache) (p : ℕ) → Step c (release_lease c p)
  taking :
      (c : Cache) (job : IoJob) (q : palm_infra.ExpertCache.State.Queues)
      → take_job c.queues ≡ some (job, q)
      → Step c (record c { queues = q })
  completing : (c : Cache) (job : IoJob) (ok : Bool) → Step c (complete_job c job ok)
  releasing :
      (c : Cache) (gate_up down : TensorSource) (expert : ℤ)
      → Step c (release c gate_up down expert).0
  retaining :
      (decay increment : Float32 → Float32) (c : Cache) (gate_up down : TensorSource)
      (experts : List ℤ) (keep_cross_token : Bool)
      → Step c (retain_for_next_forward decay increment c gate_up down experts keep_cross_token).0
  submitting : (c : Cache) (task : ℕ) → Step c (submit_cross_layer_task c task).0
  advancing : (c : Cache) → Step c (begin_forward_pass c)
  clearing : (c : Cache) → Step c (clear_resident c).0
  registering :
      (c : Cache) (address : ℕ) (s : TensorSpec)
      → IsOpenTo c s.layer
      → Step c (record c { config = (add_source c.config address s).0 })
  sharing :
      (c : Cache) (shallow_layers : ℤ)
      → IsPlain c.config
      → Step c (configure_shallow_favoring c shallow_layers).0
  pooling : (c : Cache) (enabled : Bool) → Step c (set_global_capacity_pool c enabled).0
  reusing :
      (c : Cache) (bytes : ℕ) → IsPlain c.config → Step c (set_buffer_reuse_capacity c bytes).0
  borrowing :
      (c : Cache) (gate_up down : TensorSource) → Step c (borrow_resident_layer c gate_up down).0

pub data Run : Cache → Cache → Type 0 where
  rest : (c : Cache) → Run c c
  next : (a b c : Cache) → Run a b → Step b c → Run a c

-- No entries; the allocator goes on from an address.
abbrev pub empty_store : ℕ → Store
empty_store n = record {
  entries = [];
  eviction_entries = [];
  layer_entries = no_keys;
  layer_resident_bytes = no_keys;
  resident_bytes = 0;
  resident_arena = none;
  next_address = n;
}

-- With no entries, and with quotas that a word can hold.
pub empty-IsWellFormed :
    (c : Cache) (n : ℕ) → IsSized c.config → IsWellFormed (record c { store = empty_store n })
unfolding used_for
empty-IsWellFormed c n h = record {
  consistent = record {
    distinct = tt;
    fresh = tt;
    order = refl;
    by_layer = λ l. refl;
    paired = λ l. refl;
    total = refl;
    layer_total = λ l. refl;
  };
  bounded = record { within = λ l. ground arith; known = tt; quotas = h };
}

clear_resident-IsWellFormed : (c : Cache) → IsWellFormed c → IsWellFormed (clear_resident c).0
unfolding clear_resident layer_capacity_bytes_locked
clear_resident-IsWellFormed c w =
    elim (Bool-cases (
      not (is_empty c.queues.io_jobs)
      || not (is_empty c.queues.low_priority_io_jobs)
      || any_busy c.store.entries)) [
        | inl busy ↦ rw (clear_resident, busy) w
        | inr idle ↦
            rw (clear_resident, idle)
              (empty-IsWellFormed
                (record {
                  config = record c.config { fully_resident = false };
                  store = c.store;
                  policy = _;
                  counters = _;
                  queues = _;
                })
                c.store.next_address w.bounded.quotas)
      ]

Step-IsWellFormed : (a b : Cache) → Step a b → IsWellFormed a → IsWellFormed b
Step-IsWellFormed a b (requesting c gate_up down experts speculative confidence count registered)
      w =
    (request_many_impl-Kept c gate_up down experts speculative confidence count w
      registered).well_formed
Step-IsWellFormed a b (starting c gate_up down expert wait registered) w =
    (acquire_start-Held c gate_up down expert wait w registered).well_formed
Step-IsWellFormed a b (retrying c gate_up down expert ready registered) w =
    (acquire_retry-Held c gate_up down expert ready w registered).well_formed
Step-IsWellFormed a b (finishing c p ready waited keep_pin) w =
    acquire_finish-IsWellFormed c p ready waited keep_pin w
Step-IsWellFormed a b (returning c p) w = release_lease-IsWellFormed c p w
Step-IsWellFormed a b (taking c job q h) w = (aside-Kept c c.policy c.counters q w).well_formed
Step-IsWellFormed a b (completing c job ok) w = (complete_job-Kept c job ok w).well_formed
Step-IsWellFormed a b (releasing c gate_up down expert) w =
    (release-Kept c gate_up down expert w).well_formed
Step-IsWellFormed a b (retaining decay increment c gate_up down experts keep) w =
    retain_for_next_forward-IsWellFormed decay increment c gate_up down experts keep w
Step-IsWellFormed a b (submitting c task) w = submit_cross_layer_task-IsWellFormed c task w
Step-IsWellFormed a b (advancing c) w = begin_forward_pass-IsWellFormed c w
Step-IsWellFormed a b (clearing c) w = clear_resident-IsWellFormed c w
Step-IsWellFormed a b (registering c address s allowed) w =
    add_source-IsWellFormed c w address s allowed
Step-IsWellFormed a b (sharing c shallow_layers plain) w =
    configure_shallow_favoring-IsWellFormed c w shallow_layers plain
Step-IsWellFormed a b (pooling c enabled) w = set_global_capacity_pool-IsWellFormed c w enabled
Step-IsWellFormed a b (reusing c bytes plain) w =
    set_buffer_reuse_capacity-IsWellFormed c w bytes plain
Step-IsWellFormed a b (borrowing c gate_up down) w =
    borrow_resident_layer-IsWellFormed c gate_up down w

-- After any sequence of the pieces of `Step`, a well-formed cache is well-formed: `eviction_entries`
-- and the vectors per layer list exactly the entries, in their order and at different addresses, the
-- byte counts are the sums of the buffers' sizes, and they are within the capacity of the shared
-- pool, or of each layer. The pieces are those of every modelled call that changes the cache, under
-- their conditions: requests and acquires are for pairs of registered layers; a source of a new layer
-- is added while nothing is resident and no quotas are set; and where quotas or the reuse of buffers
-- are configured, the layers are a set, the capacity is a word, and no bytes are reserved for buffers.
pub Run-IsWellFormed : (a b : Cache) → Run a b → IsWellFormed a → IsWellFormed b
Run-IsWellFormed a b (rest c) w = w
Run-IsWellFormed a b (next c d e run step) w =
    Step-IsWellFormed d e step (Run-IsWellFormed c d run w)
