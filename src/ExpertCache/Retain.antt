-- ===== src/ExpertCache/Retain.antt =====
-- MoeSsdCache::retain_for_next_forward (cache.cpp): which experts of a layer are softly protected.
use palm_infra.Common.{
  ℕ, zero, suc, ◌*◌, ◌/◌, ltb, ◌==◌, min, max, Bool, true, false, not, ◌&&◌, ◌||◌, if◌then◌else◌,
  none, some, List, [], ◌∷◌, ◌++◌, map, ℤ, pos, int_lt, length, get_or, take, word_max, Float32,
  float_zero, float_eq, float_lt, replicate, ◌-◌,
}
use palm_infra.ExpertCache.Spec.{TensorSource}
use palm_infra.ExpertCache.State.{
  Entry, Cache, Config, LayerLayout, valid_pair, expert_capacity_bytes, value_or, put,
}
use palm_infra.ExpertCache.Eviction.{resolve}
use palm_infra.ExpertCache.Notes.{has_expert}
use palm_infra.ExpertCache.Remove.{holds}
use palm_infra.ExpertCache.Advice.{natural}

-- retain_limit.
unfoldable pub retain_limit : Config → LayerLayout → ℕ → ℕ
unfolding expert_capacity_bytes
retain_limit c layout route =
    let layer_share =
      if length c.layers == 0
      then expert_capacity_bytes c
      else expert_capacity_bytes c / length c.layers in
    let limit = max 1 (layer_share / layout.pair_bytes) in
    if route == 0
    then limit
    else min limit (if ltb (word_max / 12) route then word_max else route * 12)

abbrev pub in_range : TensorSource → ℤ → Bool
in_range gate_up expert = not (int_lt expert (pos 0)) && int_lt expert gate_up.spec.num_experts

-- The loop over the current route; it stops when `next` reaches the limit.
unfoldable pub keep_route : TensorSource → ℕ → List ℤ → List ℤ → List ℤ
keep_route gate_up limit next [] = next
keep_route gate_up limit next (expert ∷ experts) =
    let skipped = keep_route gate_up limit next experts in
    let grown = next ++ expert ∷ [] in
    let kept = keep_route gate_up limit grown experts in
    if not (in_range gate_up expert) || has_expert expert next
    then skipped
    else if length grown == limit
    then grown
    else kept

-- Candidate.
pub record Candidate : Type 0 where
  pub expert : ℤ
  pub score : Float32
  pub used_at : ℕ

unfoldable pub candidate_before : Candidate → Candidate → Bool
candidate_before lhs rhs =
    if not (float_eq lhs.score rhs.score)
    then float_lt rhs.score lhs.score
    else ltb rhs.used_at lhs.used_at

unfoldable pub insert_candidate : Candidate → List Candidate → List Candidate
unfolding candidate_before
insert_candidate x [] = x ∷ []
insert_candidate x (y ∷ ys) = if candidate_before y x then y ∷ insert_candidate x ys else x ∷ y ∷ ys

-- std::sort; entries of one layer have distinct times of use, so its result is determined.
unfoldable pub sort_candidates : List Candidate → List Candidate
unfolding insert_candidate
sort_candidates [] = []
sort_candidates (x ∷ xs) = insert_candidate x (sort_candidates xs)

abbrev is_of_pair : TensorSource → TensorSource → Entry → Bool
is_of_pair gate_up down e = e.gate_up.address == gate_up.address && e.down.address == down.address

unfoldable pub candidates_of :
    TensorSource → TensorSource → List Float32 → List ℤ → List Entry → List Candidate
candidates_of gate_up down scores next [] = []
candidates_of gate_up down scores next (e ∷ es) =
    if not (is_of_pair gate_up down e) || has_expert e.expert next
    then candidates_of gate_up down scores next es
    else record {
      expert = e.expert;
      score = get_or scores (natural e.expert) float_zero;
      used_at = e.used_at;
    }
      ∷ candidates_of gate_up down scores next es

-- The loop over the sorted candidates.
unfoldable pub fill_up : ℕ → List ℤ → List Candidate → List ℤ
fill_up limit next [] = next
fill_up limit next (x ∷ xs) =
    let more = fill_up limit (next ++ x.expert ∷ []) xs in
    if length next == limit then next else more

-- The list that the call stores, for a route and the entries of the layer.
unfoldable pub next_retained :
    TensorSource → TensorSource → ℕ → List Float32 → List ℤ → List Entry → List ℤ
unfolding keep_route candidates_of sort_candidates fill_up
next_retained gate_up down limit scores experts es =
    let next = keep_route gate_up limit [] experts in
    fill_up limit next (sort_candidates (candidates_of gate_up down scores next es))

-- Every entry of the layer gets its mark.
unfoldable pub mark_retained : (Entry → Bool) → List ℕ → List Entry → List Entry
mark_retained f in_layer [] = []
mark_retained f in_layer (e ∷ es) =
    (if holds e.address in_layer then record e { retained = f e } else e)
    ∷ mark_retained f in_layer es

-- `decay` is the product with 0.96875f and `increment` the sum with 1.0f.
module _ (decay increment : Float32 → Float32) where
  abbrev adjust_at : ℕ → List Float32 → List Float32
  adjust_at i [] = []
  adjust_at zero (x ∷ xs) = increment x ∷ xs
  adjust_at (suc i) (x ∷ xs) = x ∷ adjust_at i xs

  -- scores.resize, then the two loops over the scores.
  unfoldable pub credit : TensorSource → List Float32 → List ℤ → List Float32
  credit gate_up scores [] = scores
  credit gate_up scores (expert ∷ experts) =
      credit gate_up (if in_range gate_up expert then adjust_at (natural expert) scores else scores)
        experts

  unfoldable pub updated_scores : TensorSource → List Float32 → List ℤ → List Float32
  unfolding credit
  updated_scores gate_up scores experts =
      let n = natural gate_up.spec.num_experts in
      credit gate_up (map decay (take n scores ++ replicate (n - length scores) float_zero)) experts

  unfoldable pub retain_for_next_forward :
      Cache → TensorSource → TensorSource → List ℤ → Bool → Cache × Bool
  unfolding valid_pair retain_limit next_retained updated_scores mark_retained
  retain_for_next_forward c gate_up down experts keep_cross_token =
      let layer = gate_up.spec.layer in
      if not (valid_pair c.config gate_up down (pos 0))
      then (c, false)
      else if not c.config.global_capacity_pool
      then (c, true)
      else elim (c.config.layer_layouts layer) [
        | none ↦ (c, false)
        | some layout ↦
            if layout.pair_bytes == 0
            then (c, false)
            else let limit = retain_limit c.config layout (length experts) in
              let scores =
                updated_scores gate_up (value_or [] (c.policy.retained_scores layer)) experts in
              let in_layer = value_or [] (c.store.layer_entries layer) in
              let next =
                if keep_cross_token
                then next_retained gate_up down limit scores experts
                    (resolve c.store.entries in_layer)
                else [] in
              let mark = λ (e : Entry).
                keep_cross_token && is_of_pair gate_up down e && has_expert e.expert next in
              (
                record c {
                  policy = record c.policy {
                    retained_scores = put c.policy.retained_scores layer scores;
                    retained_experts = put c.policy.retained_experts layer next;
                  };
                  store = record c.store { entries = mark_retained mark in_layer c.store.entries };
                },
                true,
              )
      ]
