-- ===== src/ExpertCache/Store/Requests.antt =====
-- request_many_impl of cache.cpp as a whole: what becomes of the resident set and of leases.
use palm_infra.Common.{
  ℕ, min, Bool, true, false, if◌then◌else◌, Option, none, some, List, [], ◌∷◌, ◌++◌, ℤ, pos, length,
  take, ◌≡◌, refl, arith, Bool-cases, inl, inr, Float32,
}
use palm_infra.ExpertCache.Spec.{TensorSource}
use palm_infra.ExpertCache.State.{Entry, EntryState, Cache, Policy, deref, find_entry, valid_pair}
use palm_infra.ExpertCache.Victim.{is_busy}
use palm_infra.ExpertCache.Eviction.{is_protected, resolve}
use palm_infra.ExpertCache.Reserve.{reserve_entry}
use palm_infra.ExpertCache.Io.{enqueue_entry, enqueue_all, enqueue_entry_reads, sort_by_expert}
use palm_infra.ExpertCache.Notes.{note_request}
use palm_infra.ExpertCache.Request.{
  Walk, walk_route, count_reserved, reserve_missing, count_selected, request_locked,
  request_many_impl,
}
use palm_infra.ExpertCache.Store.Bounds.{has_layer}
use palm_infra.ExpertCache.Store.Admission.{IsWellFormed}
use palm_infra.ExpertCache.Store.Reservation.{reserve_entry_lem}
use palm_infra.ExpertCache.Store.Calls.{
  Serves-refl, Kept, Kept-refl, Kept-trans, modify-Kept, aside-Kept,
}
use palm_infra.ExpertCache.Store.Walks.{
  walk_route-Kept, promote-Kept, count_reserved-Kept, count_selected-Kept, note_request-Kept,
}

-- A reservation keeps every lease, since it protects the entries in use.
pub reserve_entry-Kept :
    (c : Cache) (gate_up down : TensorSource) (expert : ℤ) (speculative : Bool)
    (confidence : Float32)
    → IsWellFormed c
    → has_layer gate_up.spec.layer c.config.layers ≡ true
    → Kept c (reserve_entry c gate_up down expert speculative confidence).0
unfolding is_protected is_busy
reserve_entry-Kept c gate_up down expert speculative confidence w registered =
    let r = reserve_entry_lem c gate_up down expert speculative confidence w registered in
    record {
      well_formed = r.well_formed;
      config = r.config;
      leases = λ q e h pinned. (e, r.protected_stay q e h (ground arith), Serves-refl e);
    }

reserve_missing-Kept :
    (gate_up down : TensorSource) (speculative : Bool) (c : Cache) (queued : List ℕ)
    (missing : List (ℤ × Float32))
    → IsWellFormed c
    → has_layer gate_up.spec.layer c.config.layers ≡ true
    → Kept c (reserve_missing gate_up down speculative c queued missing).0
unfolding reserve_missing
reserve_missing-Kept gate_up down speculative c queued [] w registered = Kept-refl c w
reserve_missing-Kept gate_up down speculative c queued ((expert, confidence) ∷ rest) w registered =
    go (reserve_entry c gate_up down expert speculative confidence)
      (reserve_entry-Kept c gate_up down expert speculative confidence w registered)
      (λ c' q h k. reserve_missing-Kept gate_up down speculative c' q rest h k)
  where
    go :
        (r : Cache × Option ℕ)
        → Kept c r.0
        → ((c' : Cache) (q : List ℕ)
            → IsWellFormed c'
            → has_layer gate_up.spec.layer c'.config.layers ≡ true
            → Kept c' (reserve_missing gate_up down speculative c' q rest).0)
        → Kept c
            (elim r.1 as (λ _. Cache × List ℕ) [
              | none ↦
                  reserve_missing gate_up down speculative
                    (count_reserved r.0 gate_up.spec.layer speculative false)
                    queued
                    rest
              | some q ↦
                  reserve_missing gate_up down speculative
                    (count_reserved r.0 gate_up.spec.layer speculative true)
                    (queued ++ q ∷ [])
                    rest
            ]).0
    go (c', none) k later =
        let counted = count_reserved-Kept c' gate_up.spec.layer speculative false k.well_formed in
        let so_far = Kept-trans c c' _ k counted in
        Kept-trans c _ _ so_far (later _ queued so_far.well_formed (rw so_far.config registered))
    go (c', some q) k later =
        let counted = count_reserved-Kept c' gate_up.spec.layer speculative true k.well_formed in
        let so_far = Kept-trans c c' _ k counted in
        Kept-trans c _ _ so_far
          (later _ (queued ++ q ∷ []) so_far.well_formed (rw so_far.config registered))

-- Reads that are queued.
pub enqueue_all-Kept :
    (c : Cache) (low_priority : Bool) (es : List Entry)
    → IsWellFormed c
    → Kept c (enqueue_all c low_priority es)
unfolding enqueue_all enqueue_entry palm_infra.ExpertCache.State.entry_bytes
enqueue_all-Kept c low_priority [] w = Kept-refl c w
enqueue_all-Kept c low_priority (e ∷ es) w =
    let first : Kept c (enqueue_entry c low_priority e) =
      modify-Kept c e.address _ c.policy c.counters _ w (λ x. (refl, refl, refl))
        (λ x. record {
          gate_up = refl;
          down = refl;
          expert = refl;
          gate_up_data = refl;
          gate_up_scales = refl;
          down_data = refl;
          down_scales = refl;
          pins = refl;
        }) in
    Kept-trans c _ _ first
      (enqueue_all-Kept (enqueue_entry c low_priority e) low_priority es first.well_formed)

pub enqueue_entry_reads-Kept :
    (c : Cache) (es : List Entry) (low_priority : Bool)
    → IsWellFormed c
    → Kept c (enqueue_entry_reads c es low_priority)
unfolding enqueue_entry_reads
enqueue_entry_reads-Kept c es low_priority w =
    enqueue_all-Kept c low_priority (if low_priority then es else sort_by_expert es) w

-- The reservations and the jobs at the end of a request.
reserved-Kept :
    (gate_up down : TensorSource) (speculative : Bool) (c : Cache) (missing : List (ℤ × Float32))
    → IsWellFormed c
    → has_layer gate_up.spec.layer c.config.layers ≡ true
    → let r = reserve_missing gate_up down speculative c [] missing in
      Kept c (enqueue_entry_reads r.0 (resolve r.0.store.entries r.1) speculative)
reserved-Kept gate_up down speculative c missing w registered =
    let reserved = reserve_missing-Kept gate_up down speculative c [] missing w registered in
    Kept-trans c _ _ reserved (enqueue_entry_reads-Kept _ _ speculative reserved.well_formed)

walked : Cache → TensorSource → TensorSource → List ℤ → Bool → List Float32 → ℕ → Walk
walked c gate_up down experts speculative confidence request_count =
    let layer = gate_up.spec.layer in
    let count = min (length experts) request_count in
    let noted = note_request c layer experts speculative confidence in
    let start : Walk = record {
      cache = count_selected noted layer speculative count;
      seen = [];
      missing = [];
      demanded_loading = [];
    } in
    walk_route gate_up down speculative confidence 0 start (take count experts)

walked-Kept :
    (c : Cache) (gate_up down : TensorSource) (experts : List ℤ) (speculative : Bool)
    (confidence : List Float32) (request_count : ℕ)
    → IsWellFormed c
    → Kept c (walked c gate_up down experts speculative confidence request_count).cache
unfolding walked
walked-Kept c gate_up down experts speculative confidence request_count w =
    let layer = gate_up.spec.layer in
    let count = min (length experts) request_count in
    let noted = note_request-Kept c layer experts speculative confidence w in
    let selected = count_selected-Kept _ layer speculative count noted.well_formed in
    Kept-trans c _ _ (Kept-trans c _ _ noted selected) (
      walk_route-Kept gate_up down speculative confidence 0 _ (take count experts)
        selected.well_formed)

-- From a well-formed cache and for a registered layer, the locked part of a request, on demand or
-- advisory: the indexes agree afterwards and the capacity is respected, the configuration is as it
-- was, and every pinned entry is still resident with its expert, its buffers and its pins.
pub request_locked-Kept :
    (c : Cache) (gate_up down : TensorSource) (experts : List ℤ) (speculative : Bool)
    (confidence : List Float32) (request_count : ℕ)
    → IsWellFormed c
    → has_layer gate_up.spec.layer c.config.layers ≡ true
    → Kept c (request_locked c gate_up down experts speculative confidence request_count)
unfolding request_locked walked
request_locked-Kept c gate_up down experts true confidence request_count w registered =
    let seen = walked-Kept c gate_up down experts true confidence request_count w in
    Kept-trans c _ _ seen
      (reserved-Kept gate_up down true _ _ seen.well_formed (rw seen.config registered))
request_locked-Kept c gate_up down experts false confidence request_count w registered =
    let seen = walked-Kept c gate_up down experts false confidence request_count w in
    let walk = walked c gate_up down experts false confidence request_count in
    let promoted = promote-Kept walk.cache walk.demanded_loading seen.well_formed in
    let routed =
      Kept-trans c _ _ (Kept-trans c _ _ seen promoted) (aside-Kept _ _ _ _ promoted.well_formed) in
    Kept-trans c _ _ routed
      (reserved-Kept gate_up down false _ _ routed.well_formed (rw routed.config registered))

-- A request of any pair: the same, whether the pair is refused or not.
pub request_many_impl-Kept :
    (c : Cache) (gate_up down : TensorSource) (experts : List ℤ) (speculative : Bool)
    (confidence : List Float32) (request_count : ℕ)
    → IsWellFormed c
    → has_layer gate_up.spec.layer c.config.layers ≡ true
    → Kept c
        (request_many_impl c
          (some gate_up)
          (some down)
          experts
          speculative
          confidence
          request_count).0
unfolding request_many_impl
request_many_impl-Kept c gate_up down experts speculative confidence request_count w registered =
    elim (Bool-cases (valid_pair c.config gate_up down (pos 0))) [
      | inl valid ↦ rw valid (
          request_locked-Kept c gate_up down experts speculative confidence request_count w
            registered)
      | inr refused ↦ rw refused (Kept-refl c w)
    ]
