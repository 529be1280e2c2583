-- ===== src/Precision.antt =====
-- core/tensor.h: the element types of a tensor by their codes, and the sizes of the GGUF blocks of
-- kernels/cpu/matmul/gguf_k.cpp.
use palm_infra.Common.{ℕ, ◌==◌, Bool, if◌then◌else◌}

pub data Precision : Type 0 where
  fp32 fp16 int8 int4 fp8_e4m3 mxfp4 int32 raw_u8 nvfp4 : Precision
  gguf_q4_k gguf_q5_k gguf_q6_k gguf_q8_0 : Precision
  gguf_iq2_xxs gguf_iq3_xxs gguf_stq1_0 gguf_iq4_xs : Precision

-- The value of the enumerator.
unfoldable pub precision_code : Precision → ℕ
precision_code Precision.fp32 = 0
precision_code Precision.fp16 = 1
precision_code Precision.int8 = 2
precision_code Precision.int4 = 3
precision_code Precision.fp8_e4m3 = 4
precision_code Precision.mxfp4 = 5
precision_code Precision.int32 = 6
precision_code Precision.raw_u8 = 7
precision_code Precision.nvfp4 = 8
precision_code Precision.gguf_q4_k = 9
precision_code Precision.gguf_q5_k = 10
precision_code Precision.gguf_q6_k = 11
precision_code Precision.gguf_q8_0 = 12
precision_code Precision.gguf_iq2_xxs = 13
precision_code Precision.gguf_iq3_xxs = 14
precision_code Precision.gguf_stq1_0 = 15
precision_code Precision.gguf_iq4_xs = 16

unfoldable pub precision_eq : Precision → Precision → Bool
unfolding precision_code
precision_eq p q = precision_code p == precision_code q

-- STQ_BLOCK_BYTES.
abbrev pub stq_block_bytes : ℕ
stq_block_bytes = 42

unfoldable pub gguf_k_block_bytes : Precision → ℕ
gguf_k_block_bytes Precision.gguf_q8_0 = 34
gguf_k_block_bytes Precision.gguf_iq2_xxs = 66
gguf_k_block_bytes Precision.gguf_iq3_xxs = 98
gguf_k_block_bytes Precision.gguf_stq1_0 = stq_block_bytes
gguf_k_block_bytes Precision.gguf_iq4_xs = 136
gguf_k_block_bytes Precision.gguf_q4_k = 144
gguf_k_block_bytes Precision.gguf_q5_k = 176
gguf_k_block_bytes Precision.gguf_q6_k = 210
gguf_k_block_bytes _ = 0

unfoldable pub gguf_k_block_values : Precision → ℕ
unfolding gguf_k_block_bytes
gguf_k_block_values p =
    if precision_eq p Precision.gguf_q8_0 then 32 else if gguf_k_block_bytes p == 0 then 0 else 256
