-- ===== src/MappedFile/Bytes.antt =====
-- storage/mapped_file.h: the documented layout of a header as a writer, and its integers.
use palm_infra.Common.{
  ℕ, zero, suc, ◌+◌, ◌*◌, ◌/◌, ◌%◌, ◌≤◌, ◌<◌, ◌≡◌, arith, take, List, [], ◌∷◌, ◌++◌, refl, ap,
  length, All, word_mod,
}
use palm_infra.MappedFile.{Header, from_le}

unfoldable pub le_bytes : ℕ → ℕ → List ℕ
le_bytes zero v = []
le_bytes (suc n) v = v % 256 ∷ le_bytes n (v / 256)

-- The number of integers of so many bytes.
abbrev pub byte_span : ℕ → ℕ
byte_span zero = 1
byte_span (suc n) = 256 * byte_span n

abbrev u32_mod : ℕ
u32_mod = 4294967296

unfoldable pub shape_bytes : List ℕ → List ℕ
shape_bytes [] = []
shape_bytes (d ∷ ds) = le_bytes 8 d ++ shape_bytes ds

unfoldable pub header_bytes : Header → List ℕ
header_bytes h =
    le_bytes 4 h.magic
    ++ (le_bytes 4 h.flags
        ++ (le_bytes 4 h.ndim
            ++ (le_bytes 4 h.precision
                ++ (shape_bytes h.shape
                    ++ (le_bytes 8 h.data_offset
                        ++ (le_bytes 8 h.data_size
                            ++ (le_bytes 8 h.scales_offset
                                ++ (le_bytes 8 h.scales_size
                                    ++ (le_bytes 4 h.group_size ++ le_bytes 4 h.num_groups)))))))))

-- The fields are in the range of their types.
pub record Fits (h : Header) : Type 0 where
  pub magic : h.magic < u32_mod
  pub flags : h.flags < u32_mod
  pub ndim : h.ndim < u32_mod
  pub precision : h.precision < u32_mod
  pub four : length h.shape ≡ 4
  pub shape : All (λ d. d < word_mod) h.shape
  pub data_offset : h.data_offset < word_mod
  pub data_size : h.data_size < word_mod
  pub scales_offset : h.scales_offset < word_mod
  pub scales_size : h.scales_size < word_mod
  pub group_size : h.group_size < u32_mod
  pub num_groups : h.num_groups < u32_mod

from_le-le_bytes :
    (n v : ℕ) (rest : List ℕ) → v < byte_span n → from_le n (le_bytes n v ++ rest) ≡ v
unfolding from_le le_bytes
from_le-le_bytes zero v rest h = omega arith
from_le-le_bytes (suc n) v rest h = omega (arith, from_le-le_bytes n (v / 256) rest (omega arith))

length-le_bytes : (n v : ℕ) → length (le_bytes n v) ≡ n
unfolding le_bytes
length-le_bytes zero v = refl
length-le_bytes (suc n) v = ap suc (length-le_bytes n (v / 256))

pub le_bytes-from_le :
    (n : ℕ) (bytes : List ℕ)
    → All (λ b. b < 256) bytes
    → n ≤ length bytes
    → le_bytes n (from_le n bytes) ≡ take n bytes
unfolding from_le le_bytes
le_bytes-from_le zero bytes a h = refl
le_bytes-from_le (suc n) [] a h = absurd (omega arith)
le_bytes-from_le (suc n) (b ∷ bytes) a h =
    let lt = a.0 in
    let r = from_le n bytes in
    let low : (b + 256 * r) % 256 ≡ b = omega arith in
    let high : (b + 256 * r) / 256 ≡ r = omega arith in
    rw (low, high, le_bytes-from_le n bytes a.1 (omega arith))

pub u32_back : {v : ℕ} → v < u32_mod → from_le 4 (le_bytes 4 v) ≡ v
unfolding from_le le_bytes
u32_back {v} h = from_le-le_bytes 4 v [] h

pub u64_back : {v : ℕ} → v < word_mod → from_le 8 (le_bytes 8 v) ≡ v
unfolding from_le le_bytes
u64_back {v} h = from_le-le_bytes 8 v [] h
