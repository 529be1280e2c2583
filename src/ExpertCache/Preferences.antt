-- ===== src/ExpertCache/Preferences.antt =====
-- The order in which the shared pool gives up its entries.
use palm_infra.Common.{
  ◌<◌, ltb, Bool, true, false, none, some, [], ◌∷◌, ℤ, pos, negsuc, int_lt, int_eq, ◌≡◌, ◌∙◌, sym,
  refl, arith, Bool-cases, inl, inr,
}
use palm_infra.ExpertCache.State.{Entry, Config, Policy, entry_layer}
use palm_infra.ExpertCache.Victim.{
  global_victim_before, victim_key, is_predicted, is_busy, keep_better, scan_global,
}

-- Whether the scan over the pool takes the first entry in place of the second.
abbrev pub gives_way : Config → Policy → Bool → Entry → Entry → Bool
gives_way c p prefer_left x y =
    global_victim_before p x (victim_key c p x prefer_left) y (victim_key c p y prefer_left)

-- Idle entries of one rank that no route predicts: two stale ones of layers still to come, and one
-- that is not, used between them, where the deeper one of the two was used last.
pub record IsCircle (c : Config) (p : Policy) (prefer_left : Bool) (x y z : Entry) : Type 0 where
  pub rank_x : (victim_key c p x prefer_left).rank ≡ (victim_key c p z prefer_left).rank
  pub rank_y : (victim_key c p y prefer_left).rank ≡ (victim_key c p z prefer_left).rank
  pub ahead_x : (victim_key c p x prefer_left).future ≡ true
  pub ahead_y : (victim_key c p y prefer_left).future ≡ true
  pub passed_z : (victim_key c p z prefer_left).future ≡ false
  pub deeper : int_lt (entry_layer y) (entry_layer x) ≡ true
  pub unpredicted_x : is_predicted p x ≡ false
  pub unpredicted_y : is_predicted p y ≡ false
  pub unpredicted_z : is_predicted p z ≡ false
  pub used_y : y.used_at < z.used_at
  pub used_z : z.used_at < x.used_at
  pub idle_x : is_busy x ≡ false
  pub idle_y : is_busy y ≡ false
  pub idle_z : is_busy z ≡ false

int_lt_apart :
    (a b : ℤ)
    → int_lt a b ≡ true
    → (int_lt b a ≡ false) × (int_eq a b ≡ false) × (int_eq b a ≡ false)
unfolding int_lt int_eq
int_lt_apart (pos m) (pos n) h = ground arith
int_lt_apart (pos m) (negsuc n) h = ground arith
int_lt_apart (negsuc m) (pos n) h = ground arith
int_lt_apart (negsuc m) (negsuc n) h = ground arith

module _ (c : Config) (p : Policy) (prefer_left : Bool) (e f : Entry)
    (rank : (victim_key c p e prefer_left).rank ≡ (victim_key c p f prefer_left).rank) where
  -- Among layers still to come the deeper one goes.
  by_layer :
      (victim_key c p e prefer_left).future ≡ true
      → (victim_key c p f prefer_left).future ≡ true
      → int_lt (entry_layer f) (entry_layer e) ≡ true
      → (gives_way c p prefer_left e f ≡ true) × (gives_way c p prefer_left f e ≡ false)
  unfolding global_victim_before victim_key
  by_layer a b deeper =
      let (back, other, other') = int_lt_apart (entry_layer f) (entry_layer e) deeper in
      (
        ground (arith, rank, a, b, deeper, other, other'),
        ground (arith, rank, a, b, back, other, other'),
      )

  by_time :
      (victim_key c p f prefer_left).future ≡ false
      → is_predicted p e ≡ false
      → is_predicted p f ≡ false
      → (gives_way c p prefer_left e f ≡ ltb e.used_at f.used_at)
        × (gives_way c p prefer_left f e ≡ ltb f.used_at e.used_at)
  unfolding global_victim_before
  by_time later k l = (ground (arith, rank, later, k, l), ground (arith, rank, later, k, l))

keep_first :
    (c : Config) (p : Policy) (prefer_left : Bool) (e : Entry)
    → is_busy e ≡ false
    → keep_better c p prefer_left none e ≡ some e
unfolding keep_better
keep_first c p prefer_left e idle = rw idle refl

-- One round of the scan, by the answer of the comparison.
module _ (c : Config) (p : Policy) (prefer_left : Bool) (best e : Entry) where
  keep_taken :
      is_busy e ≡ false
      → gives_way c p prefer_left e best ≡ true
      → keep_better c p prefer_left (some best) e ≡ some e
  unfolding keep_better
  keep_taken idle before = rw (idle, before) refl

  keep_same :
      gives_way c p prefer_left e best ≡ false
      → keep_better c p prefer_left (some best) e ≡ some best
  unfolding keep_better
  keep_same after = elim (Bool-cases (is_busy e)) [
    | inl busy ↦ rw busy refl
    | inr idle ↦ rw (idle, after) refl
  ]

-- The scan over three idle entries, of which the second does not go before the first, and the third
-- does.
scan_third :
    (c : Config) (p : Policy) (prefer_left : Bool) (x y z : Entry)
    → is_busy x ≡ false
    → is_busy z ≡ false
    → gives_way c p prefer_left y x ≡ false
    → gives_way c p prefer_left z x ≡ true
    → scan_global c p prefer_left none (x ∷ y ∷ z ∷ []) ≡ some z
unfolding scan_global
scan_third c p prefer_left x y z idle_x idle_z after before =
    rw
      (
        keep_first c p prefer_left x idle_x,
        keep_same c p prefer_left x y after,
        keep_taken c p prefer_left x z idle_z before,
      )
      refl

-- Each of three such entries is preferred to the next around the circle, so that the order of the
-- victims is not transitive, and the victim that the scan over the three picks depends on the one it
-- starts from: it is the last of the list in each of the three turns of the circle.
pub global_victim_before_cycles :
    (c : Config) (p : Policy) (prefer_left : Bool) (x y z : Entry)
    → IsCircle c p prefer_left x y z
    → (gives_way c p prefer_left x y ≡ true)
      × (gives_way c p prefer_left y z ≡ true)
      × (gives_way c p prefer_left z x ≡ true)
      × (scan_global c p prefer_left none (x ∷ y ∷ z ∷ []) ≡ some z)
      × (scan_global c p prefer_left none (y ∷ z ∷ x ∷ []) ≡ some x)
      × (scan_global c p prefer_left none (z ∷ x ∷ y ∷ []) ≡ some y)
global_victim_before_cycles c p prefer_left x y z h =
    let xy = by_layer c p prefer_left x y (h.rank_x ∙ sym h.rank_y) h.ahead_x h.ahead_y h.deeper in
    let yz = by_time c p prefer_left y z h.rank_y h.passed_z h.unpredicted_y h.unpredicted_z in
    let xz = by_time c p prefer_left x z h.rank_x h.passed_z h.unpredicted_x h.unpredicted_z in
    let y_before : gives_way c p prefer_left y z ≡ true = ground (arith, yz.0, h.used_y) in
    let z_after : gives_way c p prefer_left z y ≡ false = ground (arith, yz.1, h.used_y) in
    let z_before : gives_way c p prefer_left z x ≡ true = ground (arith, xz.1, h.used_z) in
    let x_after : gives_way c p prefer_left x z ≡ false = ground (arith, xz.0, h.used_z) in
    (
      xy.0,
      y_before,
      z_before,
      scan_third c p prefer_left x y z h.idle_x h.idle_z xy.1 z_before,
      scan_third c p prefer_left y z x h.idle_y h.idle_x z_after xy.0,
      scan_third c p prefer_left z x y h.idle_z h.idle_y x_after y_before,
    )
