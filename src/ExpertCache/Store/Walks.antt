-- ===== src/ExpertCache/Store/Walks.antt =====
-- The walk of request_many_impl over a route, and the bookkeeping around it.
use palm_infra.Common.{
  ℕ, ◌+◌, ◌==◌, Bool, true, false, not, ◌||◌, Option, none, some, List, [], ◌∷◌, ◌++◌, ℤ, pos,
  int_lt, refl, Bool-cases, Option-cases, inl, inr, Float32,
}
use palm_infra.ExpertCache.Spec.{TensorSource}
use palm_infra.ExpertCache.State.{Entry, EntryState, Cache, Policy, deref, find_entry, valid_pair}
use palm_infra.ExpertCache.Remove.{remove_entry}
use palm_infra.ExpertCache.Notes.{note_request, judge_prediction, has_expert}
use palm_infra.ExpertCache.Request.{
  Walk, find_live, refresh, touch_resident, walk_one, walk_route, promote, count_reserved,
  count_selected,
}
use palm_infra.ExpertCache.Store.Sizes.{OnSome}
use palm_infra.ExpertCache.Store.Admission.{IsWellFormed}
use palm_infra.ExpertCache.Store.Rewriting.{IsAlike}
use palm_infra.ExpertCache.Store.Calls.{
  Serves, Kept, Kept-refl, Kept-trans, modify-Kept, aside-Kept, remove_entry-Kept,
}

pub find_live-Kept :
    (c : Cache) (gate_up down : TensorSource) (expert : ℤ)
    → IsWellFormed c
    → Kept c (find_live c gate_up down expert).0
unfolding find_live
find_live-Kept c gate_up down expert w = go (find_entry c.store gate_up down expert)
  where
    dropped :
        (e : Entry) (r : Option (Cache × Entry))
        → OnSome (λ (r : Cache × Entry). Kept c r.0) r
        → Kept c
            (elim r as (λ _. Cache × Option Entry) [
              | none ↦ (c, some e)
              | some (c', removed) ↦ (c', none)
            ]).0
    dropped e none h = Kept-refl c w
    dropped e (some r) h = h

    at_state :
        (e : Entry) (s : EntryState)
        → Kept c
            (elim s as (λ _. Cache × Option Entry) [
              | EntryState.failed ↦ elim (remove_entry c e.address false) [
                | none ↦ (c, some e)
                | some (c', removed) ↦ (c', none)
              ]
              | _ ↦ (c, some e)
            ]).0
    at_state e EntryState.failed =
        dropped e (remove_entry c e.address false) (remove_entry-Kept c e.address false w)
    at_state e EntryState.loading = Kept-refl c w
    at_state e EntryState.loading_failed = Kept-refl c w
    at_state e EntryState.ready = Kept-refl c w

    go :
        (found : Option Entry)
        → Kept c
            (elim found as (λ _. Cache × Option Entry) [
              | none ↦ (c, none)
              | some e ↦ elim e.state [
                | EntryState.failed ↦ elim (remove_entry c e.address false) [
                  | none ↦ (c, some e)
                  | some (c', removed) ↦ (c', none)
                ]
                | _ ↦ (c, some e)
              ]
            ]).0
    go none = Kept-refl c w
    go (some e) = at_state e e.state

Serves-refresh :
    (p : Policy) (speculative : Bool) (confidence : Float32) (e : Entry)
    → Serves e (refresh p speculative confidence e)
unfolding refresh
Serves-refresh p true confidence e = record {
  gate_up = refl;
  down = refl;
  expert = refl;
  gate_up_data = refl;
  gate_up_scales = refl;
  down_data = refl;
  down_scales = refl;
  pins = refl;
}
Serves-refresh p false confidence e = record {
  gate_up = refl;
  down = refl;
  expert = refl;
  gate_up_data = refl;
  gate_up_scales = refl;
  down_data = refl;
  down_scales = refl;
  pins = refl;
}

IsAlike-refresh :
    (p : Policy) (speculative : Bool) (confidence : Float32) (e : Entry)
    → IsAlike e (refresh p speculative confidence e)
unfolding refresh palm_infra.ExpertCache.State.entry_bytes
IsAlike-refresh p true confidence e = (refl, refl, refl)
IsAlike-refresh p false confidence e = (refl, refl, refl)

touch_resident-Kept :
    (w : Walk) (e : Entry) (speculative : Bool) (confidence : Float32)
    → IsWellFormed w.cache
    → Kept w.cache (touch_resident w e speculative confidence).cache
unfolding touch_resident
touch_resident-Kept w e speculative confidence h =
    modify-Kept w.cache e.address (refresh w.cache.policy speculative confidence) _ _ _ h
      (IsAlike-refresh w.cache.policy speculative confidence)
      (Serves-refresh w.cache.policy speculative confidence)

walk_one-Kept :
    (gate_up down : TensorSource) (speculative : Bool) (w : Walk) (expert : ℤ)
    (confidence : Float32)
    → IsWellFormed w.cache
    → Kept w.cache (walk_one gate_up down speculative w expert confidence).cache
unfolding walk_one
walk_one-Kept gate_up down speculative w expert confidence h =
    elim (Bool-cases (
      int_lt expert (pos 0)
      || not (int_lt expert gate_up.spec.num_experts)
      || has_expert expert w.seen)) [
        | inl skipped ↦ rw (walk_one, skipped) (Kept-refl w.cache h)
        | inr taken ↦
            rw (walk_one, taken)
              (go (find_live w.cache gate_up down expert)
                (find_live-Kept w.cache gate_up down expert h))
      ]
  where
    go :
        (r : Cache × Option Entry)
        → Kept w.cache r.0
        → let w' : Walk = record w { cache = r.0; seen = w.seen ++ expert ∷ [] } in
          Kept w.cache
            (elim r.1 as (λ _. Walk) [
              | some e ↦ touch_resident w' e speculative confidence
              | none ↦ record w' { missing = w.missing ++ (expert, confidence) ∷ [] }
            ]).cache
    go (c, some e) k = Kept-trans w.cache c _ k (
        touch_resident-Kept (record w { cache = c; seen = w.seen ++ expert ∷ [] }) e speculative
          confidence k.well_formed)
    go (c, none) k = k

pub walk_route-Kept :
    (gate_up down : TensorSource) (speculative : Bool) (confidence : List Float32) (index : ℕ)
    (w : Walk) (experts : List ℤ)
    → IsWellFormed w.cache
    → Kept w.cache (walk_route gate_up down speculative confidence index w experts).cache
unfolding walk_route
walk_route-Kept gate_up down speculative confidence index w [] h = Kept-refl w.cache h
walk_route-Kept gate_up down speculative confidence index w (expert ∷ rest) h =
    let first = walk_one-Kept gate_up down speculative w expert _ h in
    Kept-trans w.cache _ _ first
      (walk_route-Kept gate_up down speculative confidence (index + 1) _ rest first.well_formed)

pub promote-Kept : (c : Cache) (demanded : List ℕ) → IsWellFormed c → Kept c (promote c demanded)
unfolding promote
promote-Kept c demanded w = aside-Kept c _ _ _ w

pub count_reserved-Kept :
    (c : Cache) (layer : ℤ) (speculative admitted : Bool)
    → IsWellFormed c
    → Kept c (count_reserved c layer speculative admitted)
unfolding count_reserved
count_reserved-Kept c layer true true w = aside-Kept c _ _ _ w
count_reserved-Kept c layer true false w = aside-Kept c _ _ _ w
count_reserved-Kept c layer false true w = aside-Kept c _ _ _ w
count_reserved-Kept c layer false false w = Kept-refl c w

pub count_selected-Kept :
    (c : Cache) (layer : ℤ) (speculative : Bool) (count : ℕ)
    → IsWellFormed c
    → Kept c (count_selected c layer speculative count)
unfolding count_selected
count_selected-Kept c layer true count w = aside-Kept c _ _ _ w
count_selected-Kept c layer false count w = Kept-refl c w

pub note_request-Kept :
    (c : Cache) (layer : ℤ) (experts : List ℤ) (speculative : Bool) (confidence : List Float32)
    → IsWellFormed c
    → Kept c (note_request c layer experts speculative confidence)
unfolding note_request judge_prediction
note_request-Kept c layer experts true confidence w = aside-Kept c _ _ _ w
note_request-Kept c layer experts false confidence w =
    elim (Option-cases (c.policy.pending_predictions layer)) [
      | inl unpredicted ↦ rw (note_request, unpredicted) (aside-Kept c _ _ _ w)
      | inr (r, predicted) ↦ elim (Bool-cases (r.forward_epoch == c.policy.forward_epoch)) [
        | inl now ↦ rw (note_request, predicted, now) (aside-Kept c _ _ _ w)
        | inr past ↦ rw (note_request, predicted, past) (aside-Kept c _ _ _ w)
      ]
    ]
