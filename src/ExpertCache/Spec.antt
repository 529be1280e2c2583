-- ===== src/ExpertCache/Spec.antt =====
-- The expert storage descriptors of storage/ssd_expert_cache/cache.h, and the range and size checks
-- at the top of cache.cpp.
use palm_infra.Common.{
  ℕ, ◌+◌, ◌-◌, ◌/◌, ltb, leb, ◌==◌, Bool, true, false, not, ◌&&◌, ◌||◌, if◌then◌else◌, Option, none,
  some, List, ℤ, to_word, add64, mul64, word_max, Float32,
}
use palm_infra.Precision.{Precision}

-- MoeSsdTensorSpec. `weight_ref` is the list of its bytes.
pub record TensorSpec : Type 0 where
  pub weight_ref : List ℕ
  pub layer : ℤ
  pub num_experts : ℤ
  pub rows : ℤ
  pub cols : ℤ
  pub precision : Precision
  pub flags : ℕ
  pub group_size : ℕ
  pub groups_per_row : ℕ
  pub data_offset : ℕ
  pub data_bytes : ℕ
  pub scales_offset : ℕ
  pub scales_bytes : ℕ
  pub expert_stride : ℕ
  pub input_scales : List Float32
  pub input_scales_per_expert : ℕ

-- MoeSsdTensorSource: the descriptor behind a pointer, whose value is `address`, with the cache that
-- owns it. The resident layout flags are those of the CUDA build and are not modelled.
pub record TensorSource : Type 0 where
  pub address : ℕ
  pub spec : TensorSpec
  pub cache : ℕ
  pub input_scales : List Float32
  pub input_scales_per_expert : ℕ

unfoldable pub data_file_offset : TensorSpec → ℤ → ℕ
data_file_offset s expert =
    let stride = if s.expert_stride == 0 then s.data_bytes else s.expert_stride in
    add64 s.data_offset (mul64 (to_word expert) stride)

unfoldable pub scales_file_offset : TensorSpec → ℤ → ℕ
scales_file_offset s expert =
    let stride = if s.expert_stride == 0 then s.scales_bytes else s.expert_stride in
    add64 s.scales_offset (mul64 (to_word expert) stride)

unfoldable pub component_range_fits : ℕ → ℕ → ℕ → ℤ → ℕ → Bool
component_range_fits offset bytes_per_expert expert_stride num_experts file_size =
    if bytes_per_expert == 0
    then true
    else let count = to_word num_experts in
      let stride = if expert_stride == 0 then bytes_per_expert else expert_stride in
      if count == 0 || ltb (word_max / stride) (count - 1)
      then false
      else let last = mul64 (count - 1) stride in
        leb offset file_size
        && leb last (file_size - offset)
        && leb bytes_per_expert (file_size - offset - last)

-- The fields of a descriptor are 64-bit words, as size_t is, so the first test never fails.
unfoldable pub source_bytes : TensorSpec → Option ℕ
source_bytes s =
    if ltb word_max s.data_bytes || ltb word_max s.scales_bytes
    then none
    else if ltb (word_max - s.data_bytes) s.scales_bytes
    then none
    else some (add64 s.data_bytes s.scales_bytes)

unfoldable pub components_fit_expert_stride : TensorSpec → Bool
components_fit_expert_stride s =
    if s.expert_stride == 0
    then true
    else if ltb s.expert_stride s.data_bytes || ltb s.expert_stride s.scales_bytes
    then false
    else if s.scales_bytes == 0
    then true
    else if leb s.data_offset s.scales_offset
    then (let relative = s.scales_offset - s.data_offset in
        leb s.data_bytes relative && leb relative (s.expert_stride - s.scales_bytes))
    else let relative = s.data_offset - s.scales_offset in
      leb s.scales_bytes relative && leb relative (s.expert_stride - s.data_bytes)

-- `page` is the value of getpagesize().
unfoldable pub source_capacity_bytes : ℕ → TensorSpec → ℕ → Option ℕ
unfolding source_bytes
source_capacity_bytes page s alignment = elim (source_bytes s) [
  | none ↦ none
  | some bytes ↦
      if alignment == 0
      then some bytes
      else let windows =
          (if s.data_bytes == 0 then 0 else 1) + (if s.scales_bytes == 0 then 0 else 1) in
        let padding = mul64 page windows in
        if ltb (word_max - padding) bytes then none else some (add64 bytes padding)
]

unfoldable pub expert_pair_bytes : ℕ → TensorSource → TensorSource → ℕ → Option ℕ
unfolding source_capacity_bytes
expert_pair_bytes page gate_up down alignment =
    elim (source_capacity_bytes page gate_up.spec alignment) [
      | none ↦ none
      | some gate_up_bytes ↦ elim (source_capacity_bytes page down.spec alignment) [
        | none ↦ none
        | some down_bytes ↦
            if ltb (word_max - gate_up_bytes) down_bytes
            then none
            else some (add64 gate_up_bytes down_bytes)
      ]
    ]

unfoldable pub saturating_multiply : ℕ → ℕ → ℕ
saturating_multiply value count =
    if not (value == 0) && ltb (word_max / value) count then word_max else mul64 value count
