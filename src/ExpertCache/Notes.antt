-- ===== src/ExpertCache/Notes.antt =====
-- What request_many_impl records before its walk, cache.cpp: the prediction, and how the last one did.
use palm_infra.Common.{
  ℕ, ◌+◌, ◌-◌, ltb, ◌==◌, Bool, true, false, if◌then◌else◌, none, some, List, [], ◌∷◌, ◌++◌, ℤ,
  int_eq, any_of, length, replicate, add64, Float32, map,
}
use palm_infra.ExpertCache.State.{Cache, PredictionRecord, put, drop_key, bump}
use palm_infra.ExpertCache.Remove.{counters_of}

abbrev pub has_expert : ℤ → List ℤ → Bool
has_expert x = any_of (λ y. int_eq y x)

-- std::vector::resize of a list of counts that is too short.
unfoldable pub at_least : ℕ → List ℕ → List ℕ
at_least n counts =
    if ltb (length counts) n then counts ++ replicate (n - length counts) 0 else counts

-- ++ at each position whose flag is set.
unfoldable pub bump_where : List Bool → List ℕ → List ℕ
bump_where [] counts = counts
bump_where (b ∷ bs) [] = []
bump_where (b ∷ bs) (n ∷ counts) = (if b then bump n else n) ∷ bump_where bs counts

abbrev count_true : List Bool → ℕ
count_true [] = 0
count_true (b ∷ bs) = count_true bs + (if b then 1 else 0)

-- A demand request is compared with the layer's prediction of this forward pass, rank by rank.
unfoldable pub judge_prediction : Cache → ℤ → List ℤ → PredictionRecord → Cache
unfolding at_least bump_where counters_of
judge_prediction c layer experts r =
    let n = length r.experts in
    let every : List Bool = map (λ _. true) r.experts in
    let matched : List Bool = map (λ x. has_expert x experts) r.experts in
    let k = c.counters in
    let p = c.policy in
    let l = counters_of k layer in
    record c {
      counters = record k {
        cross_layer_rank_attempts = bump_where every (at_least n k.cross_layer_rank_attempts);
        cross_layer_rank_hits = bump_where matched (at_least n k.cross_layer_rank_hits);
        layer_stats =
            if n == 0
            then k.layer_stats
            else put k.layer_stats layer (record l {
              prediction_attempts = add64 l.prediction_attempts n;
              prediction_matches = add64 l.prediction_matches (count_true matched);
            });
      };
      policy = record p {
        prediction_policy_attempts = bump_where every (at_least n p.prediction_policy_attempts);
        prediction_policy_hits = bump_where matched (at_least n p.prediction_policy_hits);
        pending_predictions = drop_key p.pending_predictions layer;
      };
    }

unfoldable pub note_request : Cache → ℤ → List ℤ → Bool → List Float32 → Cache
unfolding judge_prediction
note_request c layer experts true confidence = record c {
  policy = record c.policy {
    pending_predictions = put c.policy.pending_predictions layer (record {
      forward_epoch = c.policy.forward_epoch;
      experts = experts;
      confidence = confidence;
    });
  };
}
note_request c layer experts false confidence =
    let active = record c { policy = record c.policy { active_layer = layer } } in
    elim (c.policy.pending_predictions layer) [
      | none ↦ active
      | some r ↦
          if r.forward_epoch == c.policy.forward_epoch
          then judge_prediction active layer experts r
          else active
    ]
