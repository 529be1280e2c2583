-- ===== src/ExpertCache/Register.antt =====
-- MoeSsdCache::add_source (cache.cpp): the checks of a descriptor and its registration.
use palm_infra.Common.{
  ℕ, ◌+◌, ◌-◌, ◌*◌, ◌/◌, ◌%◌, ltb, leb, ◌==◌, Bool, true, false, not, ◌&&◌, ◌||◌, if◌then◌else◌,
  Option, none, some, List, [], ◌∷◌, ℤ, pos, int_eq, int_lt, to_word, length, any_of, add64, mul64,
  word_max, Float32, is_finite, float_lt, float_zero,
}
use palm_infra.Precision.{Precision, precision_eq, gguf_k_block_bytes, gguf_k_block_values}
use palm_infra.ExpertCache.Spec.{
  TensorSpec, TensorSource, source_bytes, components_fit_expert_stride, component_range_fits,
}
use palm_infra.ExpertCache.State.{Config, LayerLayout, put, value_or}

-- flags & bit, for a power of two.
unfoldable pub flag_of : ℕ → ℕ → ℕ
flag_of flags bit = flags / bit % 2 * bit

abbrev pub flag_int4_bg128 : ℕ
flag_int4_bg128 = 2

abbrev pub flag_int4_bg32 : ℕ
flag_int4_bg32 = 4

abbrev pub flag_expert_interleaved : ℕ
flag_expert_interleaved = 16

abbrev pub flag_nvfp4_q8_pair : ℕ
flag_nvfp4_q8_pair = 32

abbrev pub is_positive : ℤ → Bool
is_positive n = int_lt (pos 0) n

-- A scale that the calibration check refuses.
unfoldable pub is_bad_scale : Float32 → Bool
is_bad_scale v = not (is_finite v) || not (float_lt float_zero v)

unfoldable pub calibration_fits : TensorSpec → Bool
unfolding precision_eq is_bad_scale
calibration_fits s =
    (length s.input_scales == 0 && s.input_scales_per_expert == 0)
    || (precision_eq s.precision Precision.nvfp4
        && is_positive s.num_experts
        && (s.input_scales_per_expert == 1 || s.input_scales_per_expert == 2)
        && length s.input_scales == mul64 (to_word s.num_experts) s.input_scales_per_expert
        && not (any_of is_bad_scale s.input_scales))

unfoldable pub shape_fits : Config → TensorSpec → Bool
shape_fits c s =
    c.is_open
    && not (length s.weight_ref == 0)
    && not (int_lt s.layer (pos 0))
    && is_positive s.num_experts
    && is_positive s.rows
    && is_positive s.cols
    && not (s.data_bytes == 0)

-- The calls of the four range checks; `none` is their failure.
unfoldable pub checked_bytes : Config → TensorSpec → Option ℕ
unfolding source_bytes components_fit_expert_stride component_range_fits
checked_bytes c s = elim (source_bytes s) [
  | none ↦ none
  | some bytes ↦
      if components_fit_expert_stride s
        && component_range_fits s.data_offset s.data_bytes s.expert_stride s.num_experts c.file_size
        && component_range_fits s.scales_offset s.scales_bytes s.expert_stride s.num_experts
            c.file_size
      then some bytes
      else none
]

unfoldable pub is_supported : Precision → Bool
unfolding precision_eq gguf_k_block_bytes
is_supported p =
    precision_eq p Precision.fp16
    || precision_eq p Precision.fp32
    || precision_eq p Precision.int8
    || precision_eq p Precision.int4
    || precision_eq p Precision.mxfp4
    || precision_eq p Precision.nvfp4
    || not (gguf_k_block_bytes p == 0)

unfoldable pub gguf_fits : TensorSpec → Bool
unfolding gguf_k_block_bytes gguf_k_block_values
gguf_fits s =
    let gguf_bytes = gguf_k_block_bytes s.precision in
    let block_values = gguf_k_block_values s.precision in
    let blocks_per_row = to_word s.cols / block_values in
    let blocks = mul64 blocks_per_row (to_word s.rows) in
    gguf_bytes == 0
    || (s.flags == 0
        && s.scales_bytes == 0
        && s.group_size == 0
        && s.groups_per_row == 0
        && to_word s.cols % block_values == 0
        && leb blocks_per_row (word_max / to_word s.rows)
        && leb blocks (word_max / gguf_bytes)
        && mul64 blocks gguf_bytes == s.data_bytes)

unfoldable pub nvfp4_fits : TensorSpec → Bool
unfolding precision_eq flag_of
nvfp4_fits s =
    let rows = to_word s.rows in
    let cols = to_word s.cols in
    let groups = cols / 16 in
    let pair = flag_of s.flags flag_nvfp4_q8_pair in
    let known = flag_of s.flags flag_expert_interleaved + pair in
    not (precision_eq s.precision Precision.nvfp4)
    || (s.flags == known
        && s.group_size == 16
        && cols % 16 == 0
        && (pair == 0 || rows % 4 == 0)
        && s.groups_per_row == groups
        && s.data_bytes == mul64 rows cols / 2
        && s.scales_bytes == add64 (mul64 rows groups) (mul64 rows 4))

-- The INT4 check for one block layout of `group` values in `block_bytes` bytes.
unfoldable pub int4_blocks_fit : TensorSpec → ℕ → ℕ → Bool
int4_blocks_fit s group block_bytes =
    let groups_per_row = to_word s.cols / group in
    let row_blocks = (to_word s.rows + 7) / 8 in
    let size_fits = groups_per_row == 0 || leb row_blocks (word_max / groups_per_row) in
    let blocks = if size_fits then mul64 row_blocks groups_per_row else 0 in
    let bytes_fit = leb blocks (word_max / block_bytes) in
    let expected_bytes = if bytes_fit then mul64 blocks block_bytes else 0 in
    s.group_size == group
    && to_word s.cols % group == 0
    && to_word s.rows % 8 == 0
    && s.groups_per_row == groups_per_row
    && size_fits
    && bytes_fit
    && s.data_bytes == expected_bytes
    && s.scales_bytes == 0

unfoldable pub int4_fits : TensorSpec → Bool
unfolding precision_eq flag_of int4_blocks_fit
int4_fits s =
    let layout = flag_of s.flags flag_int4_bg32 + flag_of s.flags flag_int4_bg128 in
    not (precision_eq s.precision Precision.int4)
    || ((layout == flag_int4_bg32 || layout == flag_int4_bg128)
        && s.flags == layout
        && (if layout == flag_int4_bg32
            then int4_blocks_fit s 32 160
            else int4_blocks_fit s 128 544))

unfoldable pub quantized_fits : TensorSpec → Bool
unfolding precision_eq
quantized_fits s =
    let int4 = precision_eq s.precision Precision.int4 in
    not (
      precision_eq s.precision Precision.int8
      || int4
      || precision_eq s.precision Precision.mxfp4
      || precision_eq s.precision Precision.nvfp4)
    || (not (s.group_size == 0)
        && not (s.groups_per_row == 0)
        && (not (s.scales_bytes == 0) || int4))

unfoldable pub same_name : List ℕ → List ℕ → Bool
same_name [] [] = true
same_name [] (y ∷ ys) = false
same_name (x ∷ xs) [] = false
same_name (x ∷ xs) (y ∷ ys) = x == y && same_name xs ys

-- The lookup in sources_, whose keys are the names.
unfoldable pub source_named : List TensorSource → List ℕ → Option TensorSource
unfolding same_name
source_named [] name = none
source_named (t ∷ ts) name =
    if same_name t.spec.weight_ref name then some t else source_named ts name

abbrev pub empty_layout : LayerLayout
empty_layout = record { num_experts = pos 0; pair_bytes = 0 }

-- The end of add_source, for a descriptor that passed; `address` is that of the new map node.
unfoldable pub register : Config → ℕ → TensorSpec → ℕ → Config × Bool
unfolding source_named
register c address s bytes =
    let layout = value_or empty_layout (c.layer_layouts s.layer) in
    let touched = record c { layer_layouts = put c.layer_layouts s.layer layout } in
    if not (int_eq layout.num_experts (pos 0)) && not (int_eq layout.num_experts s.num_experts)
    then (touched, false)
    else if ltb (word_max - layout.pair_bytes) bytes
    then (touched, false)
    else elim (source_named c.sources s.weight_ref) [
      | some present ↦ (touched, false)
      | none ↦ (
        record c {
          sources =
              record {
                address = address;
                spec = record s { input_scales = [] };
                cache = c.self;
                input_scales = s.input_scales;
                input_scales_per_expert = s.input_scales_per_expert;
              }
              ∷ c.sources;
          layers = if any_of (λ k. int_eq k s.layer) c.layers then c.layers else s.layer ∷ c.layers;
          layer_layouts =
              put c.layer_layouts s.layer
                (record { num_experts = s.num_experts; pair_bytes = layout.pair_bytes + bytes });
        },
        true,
      )
    ]

unfoldable pub add_source : Config → ℕ → TensorSpec → Config × Bool
unfolding calibration_fits shape_fits checked_bytes is_supported gguf_fits nvfp4_fits int4_fits
    quantized_fits register
add_source c address s =
    if c.buffer_pool || not (c.read_alignment == 0)
    then (c, false)
    else if not (calibration_fits s) || not (shape_fits c s)
    then (c, false)
    else elim (checked_bytes c s) [
      | none ↦ (c, false)
      | some bytes ↦
          if is_supported s.precision
            && gguf_fits s
            && nvfp4_fits s
            && int4_fits s
            && quantized_fits s
          then register c address s bytes
          else (c, false)
    ]

-- weight_ref.substr(2) for a name that starts with "./", else "./" + weight_ref.
unfoldable pub other_spelling : List ℕ → List ℕ
other_spelling [] = 46 ∷ 47 ∷ []
other_spelling (a ∷ []) = 46 ∷ 47 ∷ a ∷ []
other_spelling (a ∷ b ∷ name) = if a == 46 && b == 47 then name else 46 ∷ 47 ∷ a ∷ b ∷ name

unfoldable pub find_source : Config → List ℕ → Option TensorSource
unfolding source_named other_spelling
find_source c name = elim (source_named c.sources name) [
  | some t ↦ some t
  | none ↦ source_named c.sources (other_spelling name)
]
