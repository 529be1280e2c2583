-- ===== src/ExpertCache/Reads.antt =====
-- The life of an entry's reads, and when an entry can be removed.
use palm_infra.Common.{
  ℕ, ◌-◌, ◌<◌, Bool, true, false, ◌&&◌, if◌then◌else◌, none, some, List, [], ◌∷◌, length, ◌≡◌, refl,
  ap, ◌∙◌, arith, Bool-cases, Option-cases, inl, inr, ◌↔◌, ◌⊎◌,
}
use palm_infra.ExpertCache.State.{Entry, EntryState, Cache, deref}
use palm_infra.ExpertCache.Victim.{is_busy}
use palm_infra.ExpertCache.Remove.{remove_entry}
use palm_infra.ExpertCache.Io.{finish_read}
use palm_infra.ExpertCache.Store.{IsConsistent}
use palm_infra.ExpertCache.Store.Erase.{deref-address}
use palm_infra.ExpertCache.Store.Removal.{remove_entry_found}

-- The reads of an entry complete one after another, with these results.
unfoldable pub finish_reads : List Bool → Entry → Entry
finish_reads [] e = e
finish_reads (ok ∷ oks) e = finish_reads oks (finish_read ok e)

abbrev pub every : List Bool → Bool
every [] = true
every (ok ∷ oks) = ok && every oks

-- One completed read that is not the last, and the last one.
more_reads :
    (ok : Bool) (e : Entry)
    → 1 < e.pending_reads
    → ((finish_read ok e).pending_reads ≡ e.pending_reads - 1)
      × (e.state ≡ EntryState.loading
          → (finish_read ok e).state
            ≡ (if ok then EntryState.loading else EntryState.loading_failed))
      × (e.state ≡ EntryState.loading_failed → (finish_read ok e).state ≡ EntryState.loading_failed)
unfolding finish_read
more_reads ok e h = (refl, λ s. ground (arith, s), λ s. ground (arith, s))

last_read :
    (ok : Bool) (e : Entry)
    → e.pending_reads ≡ 1
    → ((finish_read ok e).pending_reads ≡ 0)
      × (e.state ≡ EntryState.loading
          → (finish_read ok e).state ≡ (if ok then EntryState.ready else EntryState.failed))
      × (e.state ≡ EntryState.loading_failed → (finish_read ok e).state ≡ EntryState.failed)
unfolding finish_read
last_read ok e h = (omega (arith, h), λ s. ground (arith, s, h), λ s. ground (arith, s, h))

failed_reads :
    (oks : List Bool) (e : Entry)
    → 0 < e.pending_reads
    → e.pending_reads ≡ length oks
    → e.state ≡ EntryState.loading_failed
    → ((finish_reads oks e).state ≡ EntryState.failed) × ((finish_reads oks e).pending_reads ≡ 0)
unfolding finish_reads
failed_reads [] e h k s = absurd (omega (arith, h, k))
failed_reads (ok ∷ []) e h k s = let last = last_read ok e k in (last.2 s, last.0)
failed_reads (ok ∷ b ∷ oks) e h k s =
    let more = more_reads ok e (omega (arith, k)) in
    failed_reads (b ∷ oks) (finish_read ok e) (omega (arith, more.0, k)) (omega (arith, more.0, k))
      (more.2 s)

-- Of a loading entry, once as many reads have completed as were pending: the entry is ready exactly
-- if all of them succeeded, and else it has failed; no read is pending.
pub finish_reads_lem :
    (oks : List Bool) (e : Entry)
    → e.state ≡ EntryState.loading
    → 0 < e.pending_reads
    → e.pending_reads ≡ length oks
    → ((finish_reads oks e).state ≡ (if every oks then EntryState.ready else EntryState.failed))
      × ((finish_reads oks e).pending_reads ≡ 0)
unfolding finish_reads
finish_reads_lem [] e s h k = absurd (omega (arith, h, k))
finish_reads_lem (true ∷ []) e s h k = let last = last_read true e k in (last.1 s, last.0)
finish_reads_lem (false ∷ []) e s h k = let last = last_read false e k in (last.1 s, last.0)
finish_reads_lem (true ∷ b ∷ oks) e s h k =
    let more = more_reads true e (omega (arith, k)) in
    finish_reads_lem (b ∷ oks) (finish_read true e) (more.1 s) (omega (arith, more.0, k))
      (omega (arith, more.0, k))
finish_reads_lem (false ∷ b ∷ oks) e s h k =
    let more = more_reads false e (omega (arith, k)) in
    failed_reads (b ∷ oks) (finish_read false e) (omega (arith, more.0, k))
      (omega (arith, more.0, k)) (more.1 s)

-- In a consistent cache, a removal is refused exactly where the pointer is to no resident entry or
-- to one that is loading or pinned.
pub remove_entry_refused :
    (c : Cache) (p : ℕ) (count_eviction : Bool)
    → IsConsistent c.store
    → (remove_entry c p count_eviction ≡ none) ↔ (
        (deref c.store.entries p ≡ none)
        ⊎ ((e : Entry) × (deref c.store.entries p ≡ some e) × (is_busy e ≡ true)))
unfolding remove_entry
remove_entry_refused c p count_eviction v = (only, enough)
  where
    only :
        remove_entry c p count_eviction ≡ none
        → (deref c.store.entries p ≡ none)
          ⊎ ((e : Entry) × (deref c.store.entries p ≡ some e) × (is_busy e ≡ true))
    only refused = elim (Option-cases (deref c.store.entries p)) [
      | inl absent ↦ inl absent
      | inr (e, found) ↦ elim (Bool-cases (is_busy e)) [
        | inl busy ↦ inr (e, found, busy)
        | inr idle ↦
            let same = deref-address p c.store.entries e found in
            let (ps, n, hl, hb, gives) =
              remove_entry_found c count_eviction e v (ap (deref c.store.entries) same ∙ found)
                idle in
            absurd (ground (arith, ap (λ q. remove_entry c q count_eviction) same, gives, refused))
      ]
    ]

    enough :
        (deref c.store.entries p ≡ none)
          ⊎ ((e : Entry) × (deref c.store.entries p ≡ some e) × (is_busy e ≡ true))
        → remove_entry c p count_eviction ≡ none
    enough (inl absent) = rw (absent, remove_entry) refl
    enough (inr (e, found, busy)) = rw (found, remove_entry) (ground (arith, busy))
