-- ===== src/ExpertCache/Store/Retaining.antt =====
-- retain_for_next_forward and submit_cross_layer_task of cache.cpp: what becomes of the invariant.
use palm_infra.Common.{
  ℕ, ◌==◌, leb, length, Bool, not, ◌||◌, List, [], ◌∷◌, ℤ, pos, refl, Bool-cases, Option-cases, inl,
  inr, Float32,
}
use palm_infra.ExpertCache.Spec.{TensorSource}
use palm_infra.ExpertCache.State.{Entry, Cache, valid_pair, entry_bytes}
use palm_infra.ExpertCache.Remove.{holds}
use palm_infra.ExpertCache.Advice.{submit_cross_layer_task}
use palm_infra.ExpertCache.Retain.{retain_for_next_forward, mark_retained}
use palm_infra.ExpertCache.Store.Admission.{IsWellFormed}
use palm_infra.ExpertCache.Store.Rewriting.{AllAlike, rewritten-IsWellFormed}
use palm_infra.ExpertCache.Store.Calls.{aside-Kept}

mark_retained-AllAlike :
    (f : Entry → Bool) (in_layer : List ℕ) (es : List Entry)
    → AllAlike es (mark_retained f in_layer es)
unfolding mark_retained entry_bytes
mark_retained-AllAlike f in_layer [] = tt
mark_retained-AllAlike f in_layer (e ∷ es) = elim (Bool-cases (holds e.address in_layer)) [
  | inl here ↦ rw here ((refl, refl, refl), mark_retained-AllAlike f in_layer es)
  | inr other ↦ rw other ((refl, refl, refl), mark_retained-AllAlike f in_layer es)
]

pub retain_for_next_forward-IsWellFormed :
    (decay increment : Float32 → Float32) (c : Cache) (gate_up down : TensorSource)
    (experts : List ℤ) (keep_cross_token : Bool)
    → IsWellFormed c
    → IsWellFormed
        (retain_for_next_forward decay increment c gate_up down experts keep_cross_token).0
unfolding retain_for_next_forward
retain_for_next_forward-IsWellFormed decay increment c gate_up down experts keep w =
    elim (Bool-cases (not (valid_pair c.config gate_up down (pos 0)))) [
      | inl invalid ↦ rw (retain_for_next_forward, invalid) w
      | inr valid ↦ elim (Bool-cases (not c.config.global_capacity_pool)) [
        | inl split ↦ rw (retain_for_next_forward, valid, split) w
        | inr pooled ↦ elim (Option-cases (c.config.layer_layouts gate_up.spec.layer)) [
          | inl unknown ↦ rw (retain_for_next_forward, valid, pooled, unknown) w
          | inr (layout, known) ↦ elim (Bool-cases (layout.pair_bytes == 0)) [
            | inl empty ↦ rw (retain_for_next_forward, valid, pooled, known, empty) w
            | inr sized ↦
                rw (retain_for_next_forward, valid, pooled, known, sized)
                  (rewritten-IsWellFormed c _ _ c.counters c.queues
                    (mark_retained-AllAlike _ _ c.store.entries) w)
          ]
        ]
      ]
    ]

pub submit_cross_layer_task-IsWellFormed :
    (c : Cache) (task : ℕ) → IsWellFormed c → IsWellFormed (submit_cross_layer_task c task).0
unfolding submit_cross_layer_task
submit_cross_layer_task-IsWellFormed c task w =
    elim (Bool-cases (
      c.queues.stop_io
      || not c.queues.cross_layer_worker
      || leb 2 (length c.queues.cross_layer_tasks))) [
        | inl dropped ↦
            rw (submit_cross_layer_task, dropped) (aside-Kept c c.policy _ c.queues w).well_formed
        | inr queued ↦
            rw (submit_cross_layer_task, queued) (aside-Kept c c.policy _ _ w).well_formed
      ]
