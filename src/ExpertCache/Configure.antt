-- ===== src/ExpertCache/Configure.antt =====
-- The configuration calls of MoeSsdCache (cache.cpp), outside Apple platforms: they are refused once
-- entries are resident. The quota calculation of configure_shallow_favoring is here in full.
use palm_infra.Common.{
  ℕ, zero, suc, ◌+◌, ◌-◌, ◌/◌, ◌%◌, ltb, ◌==◌, min, Bool, true, false, not, ◌&&◌, ◌||◌,
  if◌then◌else◌, Option, none, some, List, [], ◌∷◌, map, ℤ, pos, negsuc, int_lt, to_word, length,
}
use palm_infra.ExpertCache.Spec.{saturating_multiply}
use palm_infra.ExpertCache.State.{Entry, Cache, Store, LayerLayout, LayerMap, put, no_keys}
use palm_infra.ExpertCache.Victim.{is_busy}

abbrev pub is_empty {ℓ} : {A : Type ℓ} → List A → Bool
is_empty [] = true
is_empty (x ∷ xs) = false

unfoldable pub insert_layer : ℤ → List ℤ → List ℤ
insert_layer l [] = l ∷ []
insert_layer l (k ∷ ks) = if int_lt l k then l ∷ k ∷ ks else k ∷ insert_layer l ks

-- std::sort of the layer numbers.
unfoldable pub sort_layers : List ℤ → List ℤ
unfolding insert_layer
sort_layers [] = []
sort_layers (l ∷ ls) = insert_layer l (sort_layers ls)

-- A layer with its layout's pair bytes, its layout's expert count, and the quota so far.
pub record Quota : Type 0 where
  pub layer : ℤ
  pub pair_bytes : ℕ
  pub num_experts : ℕ
  pub granted : ℕ

-- The first loop: one pair for every layer. `none` is its error; the sum is minimum_bytes.
unfoldable pub baseline : LayerMap LayerLayout → ℕ → ℕ → List ℤ → Option (List Quota × ℕ)
baseline layouts capacity minimum [] = some ([], minimum)
baseline layouts capacity minimum (l ∷ ls) = elim (layouts l) [
  | none ↦ none
  | some layout ↦
      let rest = baseline layouts capacity (minimum + layout.pair_bytes) ls in
      if layout.pair_bytes == 0
        || not (int_lt (pos 0) layout.num_experts)
        || ltb (capacity - minimum) layout.pair_bytes
      then none
      else elim rest [
        | none ↦ none
        | some (quotas, total) ↦ some (
          record {
            layer = l;
            pair_bytes = layout.pair_bytes;
            num_experts = to_word layout.num_experts;
            granted = layout.pair_bytes;
          }
              ∷ quotas,
          total,
        )
      ]
]

-- What the second loop adds to one shallow layer.
unfoldable pub shallow_grant : ℕ → Quota → ℕ
unfolding saturating_multiply
shallow_grant remaining q =
    min remaining (saturating_multiply q.pair_bytes q.num_experts - q.granted)

-- The second loop over the first `shallow_count` layers: the quotas, with what is left.
unfoldable pub fill_shallow : ℕ → ℕ → List Quota → List Quota × ℕ
unfolding shallow_grant
fill_shallow shallow_count remaining [] = ([], remaining)
fill_shallow zero remaining (q ∷ qs) = (q ∷ qs, remaining)
fill_shallow (suc n) remaining (q ∷ qs) =
    let grant = shallow_grant remaining q in
    let (rest, left) = fill_shallow n (remaining - grant) qs in
    (record q { granted = q.granted + grant } ∷ rest, left)

-- The third loop over the layers past the shallow ones.
unfoldable pub spread_deep : ℕ → ℕ → ℕ → List Quota → List Quota
spread_deep shallow_count per_layer extra [] = []
spread_deep (suc n) per_layer extra (q ∷ qs) = q ∷ spread_deep n per_layer extra qs
spread_deep zero per_layer extra (q ∷ qs) =
    record q { granted = q.granted + per_layer + (if extra == 0 then 0 else 1) }
    ∷ spread_deep 0 per_layer (extra - 1) qs

-- Past the baseline.
unfoldable pub share_out : ℕ → ℕ → List Quota → List Quota
unfolding fill_shallow spread_deep
share_out shallow_layers remaining quotas =
    let shallow_count = min shallow_layers (length quotas) in
    let (filled, left) = fill_shallow shallow_count remaining quotas in
    let deep_count = length quotas - shallow_count in
    if deep_count == 0 || left == 0
    then filled
    else spread_deep shallow_count (left / deep_count) (left % deep_count) filled

unfoldable pub quota_map : List Quota → LayerMap ℕ
quota_map [] = no_keys
quota_map (q ∷ qs) = put (quota_map qs) q.layer q.granted

unfoldable pub configure_shallow_favoring : Cache → ℤ → Cache × Bool
unfolding sort_layers baseline share_out quota_map
configure_shallow_favoring c shallow_layers =
    let cleared = record c { config = record c.config { layer_capacity_bytes = no_keys } } in
    if not (is_empty c.store.entries)
    then (c, false)
    else if c.config.global_capacity_pool
    then (
      record c {
        config = record c.config {
          shallow_favoring_layers = if int_lt (pos 0) shallow_layers then shallow_layers else pos 0;
        };
      },
      true,
    )
    else if not (int_lt (pos 0) shallow_layers) || is_empty c.config.layers
    then (cleared, true)
    else elim (baseline c.config.layer_layouts c.config.capacity_bytes 0
        (sort_layers c.config.layers)) [
          | none ↦ (cleared, false)
          | some (quotas, minimum) ↦ (
            record c {
              config = record c.config {
                layer_capacity_bytes =
                    quota_map (
                      share_out (to_word shallow_layers) (c.config.capacity_bytes - minimum)
                        quotas);
              };
            },
            true,
          )
        ]

unfoldable pub set_global_capacity_pool : Cache → Bool → Cache × Bool
set_global_capacity_pool c enabled =
    if not (is_empty c.store.entries)
      || (not enabled && (c.config.buffer_pool || not (c.config.read_alignment == 0)))
    then (c, false)
    else if enabled
    then (
      record c {
        config = record c.config { global_capacity_pool = true; layer_capacity_bytes = no_keys };
      },
      true,
    )
    else (
      record c {
        config = record c.config { global_capacity_pool = false; shallow_favoring_layers = pos 0 };
      },
      true,
    )

abbrev is_idle : Cache → Bool
is_idle c =
    is_empty c.store.entries && is_empty c.queues.io_jobs && is_empty c.queues.low_priority_io_jobs

unfoldable pub set_read_alignment : Cache → ℕ → Bool
set_read_alignment c alignment = is_idle c && not c.config.buffer_pool && alignment == 0

unfoldable pub set_buffer_reuse_capacity : Cache → ℕ → Cache × Bool
set_buffer_reuse_capacity c bytes =
    if is_idle c && bytes == 0
    then (
      record c { config = record c.config { buffer_pool = false; buffer_reserve_bytes = 0 } },
      true,
    )
    else (c, false)

abbrev clear_store : Store → Store
clear_store s = record s {
  entries = [];
  eviction_entries = [];
  layer_entries = no_keys;
  layer_resident_bytes = no_keys;
  resident_bytes = 0;
  resident_arena = none;
}

abbrev pub any_busy : List Entry → Bool
any_busy [] = false
any_busy (e ∷ es) = is_busy e || any_busy es

unfoldable pub clear_resident : Cache → Cache × Bool
unfolding is_busy
clear_resident c =
    if not (is_empty c.queues.io_jobs)
      || not (is_empty c.queues.low_priority_io_jobs)
      || any_busy c.store.entries
    then (c, false)
    else (
      record c {
        store = clear_store c.store;
        config = record c.config { fully_resident = false };
        policy = record c.policy {
          active_layer = negsuc 0;
          layer_route_widths = no_keys;
          retained_experts = no_keys;
          retained_scores = no_keys;
          pending_predictions = no_keys;
        };
      },
      true,
    )

abbrev forget_epoch : List Entry → List Entry
forget_epoch = map {A = Entry} {B = Entry} (λ e. record e { forward_epoch = 0 })

unfoldable pub begin_forward_pass : Cache → Cache
begin_forward_pass c =
    let wrapped = c.policy.forward_epoch == 18446744073709551615 in
    record c {
      store = record c.store {
        entries = if wrapped then forget_epoch c.store.entries else c.store.entries;
      };
      policy = record c.policy {
        forward_epoch = if wrapped then 1 else c.policy.forward_epoch + 1;
        active_layer = negsuc 0;
      };
    }
