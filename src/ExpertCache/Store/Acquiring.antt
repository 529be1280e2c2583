-- ===== src/ExpertCache/Store/Acquiring.antt =====
-- The end of acquire_impl, the completion of a read, release, and the start of a forward pass: what
-- becomes of the resident set.
use palm_infra.Common.{
  ℕ, ◌-◌, ◌==◌, Bool, true, false, not, if◌then◌else◌, Option, none, some, List, [], ◌∷◌, ℤ, refl,
  Bool-cases, Option-cases, inl, inr, map,
}
use palm_infra.ExpertCache.Spec.{TensorSource}
use palm_infra.ExpertCache.State.{
  Entry, EntryState, IoJob, Cache, Policy, deref, find_entry, valid_pair, is_loading, is_ready,
  entry_bytes,
}
use palm_infra.ExpertCache.Remove.{remove_entry}
use palm_infra.ExpertCache.Io.{modify, complete_job, finish_read}
use palm_infra.ExpertCache.Acquire.{unpin, acquire_finish, consume, release_lease}
use palm_infra.ExpertCache.Advice.{release}
use palm_infra.ExpertCache.Configure.{begin_forward_pass}
use palm_infra.ExpertCache.Store.Sizes.{OnSome}
use palm_infra.ExpertCache.Store.Admission.{IsWellFormed}
use palm_infra.ExpertCache.Store.Rewriting.{
  AllAlike, modify-AllAlike, rewritten, rewritten-IsWellFormed,
}
use palm_infra.ExpertCache.Store.Calls.{
  Serves, Kept, Kept-refl, modify-Kept, aside-Kept, remove_entry-Kept,
}

unpin-IsWellFormed : (c : Cache) (p : ℕ) → IsWellFormed c → IsWellFormed (unpin c p)
unfolding unpin entry_bytes
unpin-IsWellFormed c p w =
    rewritten-IsWellFormed c _ c.policy c.counters c.queues
      (modify-AllAlike p (λ e. record e { pins = e.pins - 1 }) c.store.entries
        (λ x. (refl, refl, refl)))
      w

pub release_lease-IsWellFormed :
    (c : Cache) (p : ℕ) → IsWellFormed c → IsWellFormed (release_lease c p)
unfolding release_lease
release_lease-IsWellFormed c p w = unpin-IsWellFormed c p w

pub acquire_finish-IsWellFormed :
    (c : Cache) (p : ℕ) (ready waited keep_pin : Bool)
    → IsWellFormed c
    → IsWellFormed (acquire_finish c p ready waited keep_pin).0
unfolding acquire_finish consume entry_bytes
acquire_finish-IsWellFormed c p ready waited keep_pin w =
    elim (Option-cases (deref c.store.entries p)) [
      | inl absent ↦ rw (acquire_finish, absent) w
      | inr (e, found) ↦ elim (Bool-cases (is_loading e)) [
        | inl loading ↦ rw (acquire_finish, found, loading) w
        | inr loaded ↦ elim (Bool-cases (not (is_ready e))) [
          | inl failed ↦ rw (acquire_finish, found, loaded, failed) (unpin-IsWellFormed c p w)
          | inr ready' ↦ rw (acquire_finish, found, loaded, ready') (used keep_pin _ _)
        ]
      ]
    ]
  where
    consumed :
        (k : palm_infra.ExpertCache.State.Counters) (policy : Policy)
        → IsWellFormed (rewritten c (modify p (consume c.policy) c.store.entries) policy k c.queues)
    consumed k policy =
        rewritten-IsWellFormed c _ policy k c.queues
          (modify-AllAlike p (consume c.policy) c.store.entries (λ x. (refl, refl, refl))) w

    used :
        (keep : Bool) (k : palm_infra.ExpertCache.State.Counters) (policy : Policy)
        → let c' = rewritten c (modify p (consume c.policy) c.store.entries) policy k c.queues in
          IsWellFormed (if keep then c' else unpin c' p)
    used true k policy = consumed k policy
    used false k policy = unpin-IsWellFormed _ p (consumed k policy)

finish_read-Serves : (ok : Bool) (e : Entry) → Serves e (finish_read ok e)
unfolding finish_read
finish_read-Serves ok e = record {
  gate_up = refl;
  down = refl;
  expert = refl;
  gate_up_data = refl;
  gate_up_scales = refl;
  down_data = refl;
  down_scales = refl;
  pins = refl;
}

-- The completion of a read, whichever entry it names and however it ended.
pub complete_job-Kept :
    (c : Cache) (job : IoJob) (ok : Bool) → IsWellFormed c → Kept c (complete_job c job ok)
unfolding complete_job finish_read entry_bytes
complete_job-Kept c job ok w = elim (Option-cases (deref c.store.entries job.entry)) [
  | inl absent ↦ rw (complete_job, absent) (Kept-refl c w)
  | inr (e, found) ↦
      rw (complete_job, found)
        (modify-Kept c job.entry (finish_read ok) c.policy _ c.queues w (λ x. (refl, refl, refl))
          (finish_read-Serves ok))
]

-- release().
pub release-Kept :
    (c : Cache) (gate_up down : TensorSource) (expert : ℤ)
    → IsWellFormed c
    → Kept c (release c gate_up down expert).0
unfolding release
release-Kept c gate_up down expert w =
    elim (Bool-cases (not (valid_pair c.config gate_up down expert))) [
      | inl invalid ↦ rw (release, invalid) (Kept-refl c w)
      | inr valid ↦ elim (Option-cases (find_entry c.store gate_up down expert)) [
        | inl absent ↦ rw (release, valid, absent) (Kept-refl c w)
        | inr (e, found) ↦ elim (Bool-cases (is_loading e)) [
          | inl loading ↦ rw (release, valid, found, loading) (Kept-refl c w)
          | inr loaded ↦
              rw (release, valid, found, loaded)
                (go (remove_entry c e.address true) (remove_entry-Kept c e.address true w))
        ]
      ]
    ]
  where
    go :
        (r : Option (Cache × Entry))
        → OnSome (λ (r : Cache × Entry). Kept c r.0) r
        → Kept c
            (elim r as (λ _. Cache × Bool) [
              | none ↦ (c, false)
              | some (removed, entry) ↦ (removed, true)
            ]).0
    go none k = Kept-refl c w
    go (some r) k = k

forget_epoch-AllAlike :
    (es : List Entry)
    → AllAlike es (map {A = Entry} {B = Entry} (λ e. record e { forward_epoch = 0 }) es)
unfolding entry_bytes
forget_epoch-AllAlike [] = tt
forget_epoch-AllAlike (e ∷ es) = ((refl, refl, refl), forget_epoch-AllAlike es)

-- The start of a forward pass, also where the epoch wraps.
pub begin_forward_pass-IsWellFormed :
    (c : Cache) → IsWellFormed c → IsWellFormed (begin_forward_pass c)
unfolding begin_forward_pass
begin_forward_pass-IsWellFormed c w = go (c.policy.forward_epoch == 18446744073709551615) _
  where
    go :
        (b : Bool) (policy : Policy)
        → IsWellFormed (
            rewritten c
              (if b
                then map {A = Entry} {B = Entry}
                    (λ e. record e { forward_epoch = 0 })
                    c.store.entries
                else c.store.entries)
              policy
              c.counters
              c.queues)
    go true policy =
        rewritten-IsWellFormed c _ policy c.counters c.queues
          (forget_epoch-AllAlike c.store.entries) w
    go false policy = (aside-Kept c policy c.counters c.queues w).well_formed
