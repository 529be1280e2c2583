-- ===== src/MappedFile.antt =====
-- storage/mapped_file.h and storage/mapped_file.cpp: the header of a weight blob, its checks, and
-- parse_header. Bytes are numbers below 256 and integers are stored with the low byte first.
pub mod Bytes
pub mod Format
pub mod Ranges
pub mod Handles
use palm_infra.Common.{
  ℕ, zero, suc, ◌+◌, ◌-◌, ◌*◌, ◌/◌, ltb, leb, ◌==◌, add64, Bool, true, false, not, ◌&&◌, ◌||◌, List,
  [], ◌∷◌, if◌then◌else◌, any_of, drop, take,
}
use palm_infra.Precision.{Precision, precision_code}

pub record Header : Type 0 where
  pub magic : ℕ
  pub flags : ℕ
  pub ndim : ℕ
  pub precision : ℕ
  -- The four entries of the array.
  pub shape : List ℕ
  pub data_offset : ℕ
  pub data_size : ℕ
  pub scales_offset : ℕ
  pub scales_size : ℕ
  pub group_size : ℕ
  pub num_groups : ℕ

abbrev pub xmap_magic : ℕ
xmap_magic = 0x50414D58

-- sizeof(Header).
abbrev pub header_size : ℕ
header_size = 88

-- The value-initialised header.
abbrev pub no_header : Header
no_header = record {
  magic = 0;
  flags = 0;
  ndim = 0;
  precision = 0;
  shape = 0 ∷ 0 ∷ 0 ∷ 0 ∷ [];
  data_offset = 0;
  data_size = 0;
  scales_offset = 0;
  scales_size = 0;
  group_size = 0;
  num_groups = 0;
}

unfoldable pub range_within_file : ℕ → ℕ → ℕ → Bool
range_within_file offset len file_size = leb offset file_size && leb len (file_size - offset)

-- The six known flags are the low six bits.
unfoldable pub has_unknown_flags : ℕ → Bool
has_unknown_flags flags = not (flags / 64 == 0)

unfoldable pub has_empty_dimension : Header → Bool
has_empty_dimension h = any_of (λ d. d == 0) (take h.ndim h.shape)

unfoldable pub ranges_overlap : Header → Bool
ranges_overlap h =
    ltb h.data_offset (add64 h.scales_offset h.scales_size)
    && ltb h.scales_offset (add64 h.data_offset h.data_size)

unfoldable pub valid_header : Header → ℕ → Bool
unfolding has_unknown_flags has_empty_dimension range_within_file ranges_overlap precision_code
valid_header h file_size =
    if has_unknown_flags h.flags
      || h.ndim == 0
      || ltb 4 h.ndim
      || ltb (precision_code Precision.gguf_iq4_xs) h.precision
    then false
    else if has_empty_dimension h
    then false
    else if not (range_within_file h.data_offset h.data_size file_size)
        || not (range_within_file h.scales_offset h.scales_size file_size)
    then false
    else if not (h.data_size == 0) && ltb h.data_offset header_size
        || not (h.scales_size == 0) && ltb h.scales_offset header_size
    then false
    else not (not (h.data_size == 0) && not (h.scales_size == 0) && ranges_overlap h)

-- An integer of so many bytes at the front.
unfoldable pub from_le : ℕ → List ℕ → ℕ
from_le zero bytes = 0
from_le (suc n) [] = 0
from_le (suc n) (b ∷ bytes) = b + 256 * from_le n bytes

-- std::memcpy of the header, by the offsets of its fields.
unfoldable pub read_header : List ℕ → Header
read_header bytes = record {
  magic = from_le 4 bytes;
  flags = from_le 4 (drop 4 bytes);
  ndim = from_le 4 (drop 8 bytes);
  precision = from_le 4 (drop 12 bytes);
  shape =
      from_le 8 (drop 16 bytes)
      ∷ from_le 8 (drop 24 bytes)
      ∷ from_le 8 (drop 32 bytes)
      ∷ from_le 8 (drop 40 bytes)
      ∷ [];
  data_offset = from_le 8 (drop 48 bytes);
  data_size = from_le 8 (drop 56 bytes);
  scales_offset = from_le 8 (drop 64 bytes);
  scales_size = from_le 8 (drop 72 bytes);
  group_size = from_le 4 (drop 80 bytes);
  num_groups = from_le 4 (drop 84 bytes);
}

-- The bytes at a pointer that is not null, their count, and the header the caller passed in.
unfoldable pub parse_header : List ℕ → ℕ → Header × Bool
parse_header bytes size =
    if ltb size header_size
    then (no_header, false)
    else let h = read_header bytes in
      if not (h.magic == xmap_magic) || not (valid_header h size)
      then (no_header, false)
      else (h, true)
