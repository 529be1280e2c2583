-- ===== src/ExpertCache/Store/Calls.antt =====
-- Leases on entries, and what a call on the cache owes them: removals and writes through pointers.
use palm_infra.Common.{
  ℕ, ◌≤◌, ◌<◌, ◌==◌, Bool, true, false, some, List, [], ◌∷◌, ◌≡◌, refl, sym, ap, subst, ◌⊎◌, ◌∙◌,
  arith, Bool-cases, Option-cases, inl, inr, float_zero,
}
use palm_infra.ExpertCache.State.{Entry, Cache, Policy, Counters, Queues, deref}
use palm_infra.ExpertCache.Victim.{is_busy}
use palm_infra.ExpertCache.Remove.{remove_entry}
use palm_infra.ExpertCache.Eviction.{is_protected}
use palm_infra.ExpertCache.Io.{modify}
use palm_infra.ExpertCache.Store.Sizes.{OnSome}
use palm_infra.ExpertCache.Store.Erase.{deref-address}
use palm_infra.ExpertCache.Store.Removal.{after_removal, remove_entry_found}
use palm_infra.ExpertCache.Store.Trim.{Trimmed, removal-Trimmed}
use palm_infra.ExpertCache.Store.Admission.{IsWellFormed, Trimmed-IsWellFormed}
use palm_infra.ExpertCache.Store.Rewriting.{
  IsAlike, AllAlike-refl, modify-AllAlike, rewritten, rewritten-IsWellFormed,
}

-- The second entry still serves a lease of the first: the same expert in the same buffers, with as
-- many pins.
pub record Serves (e e' : Entry) : Type 0 where
  pub gate_up : e'.gate_up ≡ e.gate_up
  pub down : e'.down ≡ e.down
  pub expert : e'.expert ≡ e.expert
  pub gate_up_data : e'.gate_up_data ≡ e.gate_up_data
  pub gate_up_scales : e'.gate_up_scales ≡ e.gate_up_scales
  pub down_data : e'.down_data ≡ e.down_data
  pub down_scales : e'.down_scales ≡ e.down_scales
  pub pins : e'.pins ≡ e.pins

pub Serves-refl : (e : Entry) → Serves e e
Serves-refl e = record {
  gate_up = refl;
  down = refl;
  expert = refl;
  gate_up_data = refl;
  gate_up_scales = refl;
  down_data = refl;
  down_scales = refl;
  pins = refl;
}

Serves-trans : (a b c : Entry) → Serves a b → Serves b c → Serves a c
Serves-trans a b c h k = record {
  gate_up = k.gate_up ∙ h.gate_up;
  down = k.down ∙ h.down;
  expert = k.expert ∙ h.expert;
  gate_up_data = k.gate_up_data ∙ h.gate_up_data;
  gate_up_scales = k.gate_up_scales ∙ h.gate_up_scales;
  down_data = k.down_data ∙ h.down_data;
  down_scales = k.down_scales ∙ h.down_scales;
  pins = k.pins ∙ h.pins;
}

-- The same where pins may be added.
pub record Holds (e e' : Entry) : Type 0 where
  pub served : Serves (record e { pins = e'.pins }) e'
  pub pins : e.pins ≤ e'.pins

pub Serves-Holds : (e e' : Entry) → Serves e e' → Holds e e'
Serves-Holds e e' s = record {
  served = record {
    gate_up = s.gate_up;
    down = s.down;
    expert = s.expert;
    gate_up_data = s.gate_up_data;
    gate_up_scales = s.gate_up_scales;
    down_data = s.down_data;
    down_scales = s.down_scales;
    pins = refl;
  };
  pins = omega (arith, s.pins);
}

Holds-trans : (a b c : Entry) → Holds a b → Holds b c → Holds a c
Holds-trans a b c h k = record {
  served = record {
    gate_up = k.served.gate_up ∙ h.served.gate_up;
    down = k.served.down ∙ h.served.down;
    expert = k.served.expert ∙ h.served.expert;
    gate_up_data = k.served.gate_up_data ∙ h.served.gate_up_data;
    gate_up_scales = k.served.gate_up_scales ∙ h.served.gate_up_scales;
    down_data = k.served.down_data ∙ h.served.down_data;
    down_scales = k.served.down_scales ∙ h.served.down_scales;
    pins = refl;
  };
  pins = omega (arith, h.pins, k.pins);
}

-- The entry at the pointer is still there, in a relation to the one that was.
abbrev pub IsStill : (Entry → Entry → Type 0) → List Entry → ℕ → Entry → Type 0
IsStill R es q e = (e' : Entry) × (deref es q ≡ some e') × R e e'

-- What a call keeps: the invariant, the configuration, and every pinned entry with its pins.
pub record Kept (c c' : Cache) : Type 0 where
  pub well_formed : IsWellFormed c'
  pub config : c'.config ≡ c.config
  pub leases :
      (q : ℕ) (e : Entry)
      → deref c.store.entries q ≡ some e
      → 0 < e.pins
      → IsStill Serves c'.store.entries q e

-- The same where the call may add pins.
pub record Held (c c' : Cache) : Type 0 where
  pub well_formed : IsWellFormed c'
  pub config : c'.config ≡ c.config
  pub leases :
      (q : ℕ) (e : Entry)
      → deref c.store.entries q ≡ some e
      → 0 < e.pins
      → IsStill Holds c'.store.entries q e

pub Kept-Held : (c c' : Cache) → Kept c c' → Held c c'
Kept-Held c c' k = record {
  well_formed = k.well_formed;
  config = k.config;
  leases = λ q e found pinned.
      let (e', found', s) = k.leases q e found pinned in (e', found', Serves-Holds e e' s);
}

pub Held-trans : (a b c : Cache) → Held a b → Held b c → Held a c
Held-trans a b c h k = record {
  well_formed = k.well_formed;
  config = k.config ∙ h.config;
  leases = λ q e found pinned.
      let (e', found', s) = h.leases q e found pinned in
      let (e'', found'', s') = k.leases q e' found' (omega (arith, s.pins, pinned)) in
      (e'', found'', Holds-trans e e' e'' s s');
}

pub Kept-refl : (c : Cache) → IsWellFormed c → Kept c c
Kept-refl c w = record { well_formed = w; config = refl; leases = λ q e h k. (e, h, Serves-refl e) }

pub Kept-trans : (a b c : Cache) → Kept a b → Kept b c → Kept a c
Kept-trans a b c h k = record {
  well_formed = k.well_formed;
  config = k.config ∙ h.config;
  leases = λ q e found pinned.
      let (e', found', s) = h.leases q e found pinned in
      let (e'', found'', s') = k.leases q e' found' (omega (arith, s.pins, pinned)) in
      (e'', found'', Serves-trans e e' e'' s s');
}

deref-modify :
    (R : Entry → Entry → Type 0) (p : ℕ) (f : Entry → Entry) (es : List Entry) (q : ℕ) (e : Entry)
    → ((x : Entry) → R x x)
    → ((x : Entry) → IsAlike x (f x))
    → ((x : Entry) → R x (f x))
    → deref es q ≡ some e
    → IsStill R (modify p f es) q e
unfolding deref modify
deref-modify R p f [] q e reflexive a s h = ground arith
deref-modify R p f (x ∷ es) q e reflexive a s h = elim (Bool-cases (x.address == p)) [
  | inl here ↦ rw here (written_head (Bool-cases (x.address == q)))
  | inr past ↦
      rw past
        (kept_head (λ k. deref-modify R p f es q e reflexive a s k) (Bool-cases (x.address == q)))
]
  where
    written_head : (x.address == q ≡ true) ⊎ (x.address == q ≡ false) → IsStill R (f x ∷ es) q e
    written_head (inl hit) =
        let same : x ≡ e = ground (arith, hit, h) in
        let hit' : (f x).address == q ≡ true = ap (λ n. n == q) (a x).0 ∙ hit in
        subst (IsStill R (f x ∷ es) q) same (f x, rw hit' refl, s x)
    written_head (inr miss) =
        let miss' : (f x).address == q ≡ false = ap (λ n. n == q) (a x).0 ∙ miss in
        (e, rw miss' (ground (arith, miss, h)), reflexive e)

    kept_head :
        (deref es q ≡ some e → IsStill R (modify p f es) q e)
        → (x.address == q ≡ true) ⊎ (x.address == q ≡ false)
        → IsStill R (x ∷ modify p f es) q e
    kept_head rest (inl hit) = (e, rw hit (ground (arith, hit, h)), reflexive e)
    kept_head rest (inr miss) =
        let (e', found, served) = rest (ground (arith, miss, h)) in (e', rw miss found, served)

-- A write through a pointer, with any change of the policy, the counters and the queues.
pub modify-Kept :
    (c : Cache) (p : ℕ) (f : Entry → Entry) (policy : Policy) (k : Counters) (q : Queues)
    → IsWellFormed c
    → ((x : Entry) → IsAlike x (f x))
    → ((x : Entry) → Serves x (f x))
    → Kept c (rewritten c (modify p f c.store.entries) policy k q)
modify-Kept c p f policy k q w a s = record {
  well_formed =
      rewritten-IsWellFormed c (modify p f c.store.entries) policy k q
        (modify-AllAlike p f c.store.entries a) w;
  config = refl;
  leases = λ r e h pinned. deref-modify Serves p f c.store.entries r e Serves-refl a s h;
}

-- A write through a pointer that may add pins.
pub modify-Held :
    (c : Cache) (p : ℕ) (f : Entry → Entry)
    → IsWellFormed c
    → ((x : Entry) → IsAlike x (f x))
    → ((x : Entry) → Holds x (f x))
    → Held c (rewritten c (modify p f c.store.entries) c.policy c.counters c.queues)
modify-Held c p f w a s = record {
  well_formed =
      rewritten-IsWellFormed c (modify p f c.store.entries) c.policy c.counters c.queues
        (modify-AllAlike p f c.store.entries a) w;
  config = refl;
  leases = λ r e h pinned.
      deref-modify Holds p f c.store.entries r e (λ x. Serves-Holds x x (Serves-refl x)) a s h;
}

-- A change of the policy, the counters and the queues alone.
pub aside-Kept :
    (c : Cache) (policy : Policy) (k : Counters) (q : Queues)
    → IsWellFormed c
    → Kept c (rewritten c c.store.entries policy k q)
aside-Kept c policy k q w = record {
  well_formed =
      rewritten-IsWellFormed c c.store.entries policy k q (AllAlike-refl c.store.entries) w;
  config = refl;
  leases = λ r e h pinned. (e, h, Serves-refl e);
}

-- Any step that respects the protection of entries in use.
pub Trimmed-Kept : (c c' : Cache) → IsWellFormed c → Trimmed false float_zero c c' → Kept c c'
unfolding is_protected is_busy
Trimmed-Kept c c' w t = record {
  well_formed = Trimmed-IsWellFormed false float_zero c c' t w;
  config = t.config;
  leases = λ q e h pinned. (e, t.protected_stay q e h (ground arith), Serves-refl e);
}

after_removal-Kept :
    (c : Cache) (e : Entry) (count_eviction : Bool) (ps : List ℕ) (n : ℕ)
    → IsWellFormed c
    → Trimmed false float_zero c (after_removal c e true ps n)
    → Kept c (after_removal c e count_eviction ps n)
unfolding after_removal
after_removal-Kept c e true ps n w t = Trimmed-Kept c (after_removal c e true ps n) w t
after_removal-Kept c e false ps n w t =
    let counted = Trimmed-Kept c (after_removal c e true ps n) w t in
    Kept-trans c (after_removal c e true ps n) _ counted
      (aside-Kept (after_removal c e true ps n) c.policy c.counters c.queues counted.well_formed)

-- A removal, counted as an eviction or not.
pub remove_entry-Kept :
    (c : Cache) (p : ℕ) (count_eviction : Bool)
    → IsWellFormed c
    → OnSome (λ (r : Cache × Entry). Kept c r.0) (remove_entry c p count_eviction)
unfolding remove_entry is_protected
remove_entry-Kept c p count_eviction w = elim (Option-cases (deref c.store.entries p)) [
  | inl absent ↦ rw (absent, remove_entry) tt
  | inr (e, found) ↦
      removal e found (deref-address p c.store.entries e found) (Bool-cases (is_busy e))
]
  where
    removal :
        (e : Entry)
        → deref c.store.entries p ≡ some e
        → e.address ≡ p
        → (is_busy e ≡ true) ⊎ (is_busy e ≡ false)
        → OnSome (λ (r : Cache × Entry). Kept c r.0) (remove_entry c p count_eviction)
    removal e found same (inl busy) = rw (found, remove_entry) (ground (arith, busy))
    removal e found same (inr idle) =
        let (ps, n, hl, hb, gives) =
          remove_entry_found c count_eviction e w.consistent
            (ap (deref c.store.entries) same ∙ found) idle in
        rw (sym same, gives)
          (after_removal-Kept c e count_eviction ps n w (
            removal-Trimmed false float_zero c w.consistent e
              (ap (deref c.store.entries) same ∙ found) (ground (arith, idle)) ps hl n hb))
