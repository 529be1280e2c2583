-- ===== src/ExpertCache/Victim.antt =====
-- The choice of the entry to evict: prefer_left_layer_eviction_locked, victim_key_locked,
-- global_victim_before_locked and the two victim scans of reserve_entry_locked.
use palm_infra.Common.{
  ℕ, ◌+◌, ◌/◌, ltb, ◌==◌, Bool, false, not, ◌&&◌, ◌||◌, if◌then◌else◌, Option, none, some, List, [],
  ◌∷◌, ℤ, pos, int_eq, int_lt, length, float_lt, float_eq,
}
use palm_infra.ExpertCache.State.{
  Entry, is_loading, entry_layer, Config, Policy, expert_capacity_bytes,
}

unfoldable pub prefer_left_layer_eviction : Config → Policy → Bool
unfolding expert_capacity_bytes
prefer_left_layer_eviction c p =
    if int_lt p.active_layer (pos 0) || length c.layers == 0
    then false
    else elim (c.layer_layouts p.active_layer) [
      | none ↦ false
      | some layout ↦ elim (p.layer_route_widths p.active_layer) [
        | none ↦ false
        | some width ↦
            if layout.pair_bytes == 0 || width == 0
            then false
            else ltb (expert_capacity_bytes c / length c.layers / layout.pair_bytes) width
      ]
    ]

-- VictimKey.
pub record VictimKey : Type 0 where
  pub rank : ℕ
  pub layer : ℤ
  pub future : Bool

unfoldable pub is_stale : Policy → Entry → Bool
is_stale p e = not (e.forward_epoch == p.forward_epoch)

unfoldable pub has_left : Policy → Entry → Bool
has_left p e = not (int_lt p.active_layer (pos 0)) && int_lt (entry_layer e) p.active_layer

unfoldable pub is_shallow : Config → Entry → Bool
is_shallow c e =
    int_lt (pos 0) c.shallow_favoring_layers && int_lt (entry_layer e) c.shallow_favoring_layers

unfoldable pub victim_key : Config → Policy → Entry → Bool → VictimKey
unfolding is_stale has_left is_shallow
victim_key c p e prefer_left =
    let stale = is_stale p e in
    let shallow = is_shallow c e in
    let left = has_left p e in
    let rank : ℕ =
      if (prefer_left && left) || (not prefer_left && stale)
      then (if shallow then 1 else 0)
      else if (prefer_left && stale) || (not prefer_left && left)
      then (if shallow then 3 else 2)
      else if shallow
      then 5
      else 4 in
    record {
      rank = rank + (if e.retained then 6 else 0);
      layer = entry_layer e;
      future =
          stale
          && not (int_lt p.active_layer (pos 0))
          && not (int_lt (entry_layer e) p.active_layer);
    }

unfoldable pub is_predicted : Policy → Entry → Bool
is_predicted p e = e.prediction_epoch == p.forward_epoch

unfoldable pub global_victim_before : Policy → Entry → VictimKey → Entry → VictimKey → Bool
unfolding is_predicted
global_victim_before p candidate candidate_key current current_key =
    if not (candidate_key.rank == current_key.rank)
    then ltb candidate_key.rank current_key.rank
    else if candidate_key.future
        && current_key.future
        && not (int_eq candidate_key.layer current_key.layer)
    then int_lt current_key.layer candidate_key.layer
    else let candidate_predicted = is_predicted p candidate in
      let current_predicted = is_predicted p current in
      if (candidate_predicted && not current_predicted)
        || (not candidate_predicted && current_predicted)
      then not candidate_predicted
      else if candidate_predicted
          && not (float_eq candidate.prediction_confidence current.prediction_confidence)
      then float_lt candidate.prediction_confidence current.prediction_confidence
      else ltb candidate.used_at current.used_at

unfoldable pub is_busy : Entry → Bool
unfolding is_loading
is_busy e = is_loading e || not (e.pins == 0)

-- One round of the loop over eviction_entries_, from the best victim so far.
unfoldable pub keep_better : Config → Policy → Bool → Option Entry → Entry → Option Entry
unfolding is_busy
keep_better c p prefer_left none e = if is_busy e then none else some e
keep_better c p prefer_left (some best) e =
    if is_busy e
    then some best
    else if global_victim_before p e (victim_key c p e prefer_left) best
        (victim_key c p best prefer_left)
    then some e
    else some best

unfoldable pub scan_global : Config → Policy → Bool → Option Entry → List Entry → Option Entry
unfolding keep_better
scan_global c p prefer_left best [] = best
scan_global c p prefer_left best (e ∷ es) =
    scan_global c p prefer_left (keep_better c p prefer_left best e) es

-- The order of the std::min_element over one layer.
unfoldable pub layer_victim_before : Entry → Entry → Bool
unfolding is_busy
layer_victim_before a b =
    let a_busy = is_busy a in
    let b_busy = is_busy b in
    if (a_busy && not b_busy) || (not a_busy && b_busy) then not a_busy else ltb a.used_at b.used_at

-- std::min_element: the first element that no other is before.
unfoldable pub scan_layer : Option Entry → List Entry → Option Entry
unfolding layer_victim_before
scan_layer best [] = best
scan_layer none (e ∷ es) = scan_layer (some e) es
scan_layer (some b) (e ∷ es) = scan_layer (some (if layer_victim_before e b then e else b)) es
