-- ===== src/MappedFile/Ranges.antt =====
-- storage/mapped_file.cpp: what an accepted header says of the file behind it.
use palm_infra.Common.{
  ℕ, ◌+◌, ◌-◌, ◌≤◌, ◌<◌, word_mod, true, false, ◌≡◌, ◌≢◌, ◌↔◌, arith, any_of, take, List, [], ◌∷◌,
  ◌==◌, refl, All,
}
use palm_infra.MappedFile.{Header, valid_header, has_empty_dimension}

-- The payload lies past the header and inside the file.
abbrev pub InFile : ℕ → ℕ → ℕ → Type 0
InFile offset size file_size = (offset + size ≤ file_size) × (size ≢ 0 → 88 ≤ offset)

-- What a header promises, in unbounded numbers.
pub record IsSound (h : Header) (file_size : ℕ) : Type 0 where
  pub flags_known : h.flags < 64
  pub some_dimension : 0 < h.ndim
  pub few_dimensions : h.ndim ≤ 4
  pub precision_known : h.precision ≤ 16
  pub dimensions : All (λ d. d ≢ 0) (take h.ndim h.shape)
  pub payload : InFile h.data_offset h.data_size file_size
  pub scales : InFile h.scales_offset h.scales_size file_size
  pub apart :
      (i j : ℕ) → i < h.data_size → j < h.scales_size → h.data_offset + i ≢ h.scales_offset + j

none_empty : (ds : List ℕ) → any_of (λ d. d == 0) ds ≡ false → All (λ d. d ≢ 0) ds
none_empty [] h = tt
none_empty (d ∷ ds) h = (ground arith, none_empty ds (ground arith))

none_empty_conv : (ds : List ℕ) → All (λ d. d ≢ 0) ds → any_of (λ d. d == 0) ds ≡ false
none_empty_conv [] h = refl
none_empty_conv (d ∷ ds) h = let e = h.0 in ground (arith, none_empty_conv ds h.1)

valid-IsSound : (h : Header) (n : ℕ) → n < word_mod → valid_header h n ≡ true → IsSound h n
unfolding valid_header has_empty_dimension
valid-IsSound h n b v = record {
  flags_known = ground arith;
  some_dimension = ground arith;
  few_dimensions = ground arith;
  precision_known = ground arith;
  dimensions = none_empty (take h.ndim h.shape) (ground arith);
  payload = ground arith;
  scales = ground arith;
  apart = λ i j p q. ground arith;
}

IsSound-valid : (h : Header) (n : ℕ) → n < word_mod → IsSound h n → valid_header h n ≡ true
unfolding valid_header has_empty_dimension
IsSound-valid h n b s = ground (
  arith,
  none_empty_conv (take h.ndim h.shape) s.dimensions,
  s.apart (h.scales_offset - h.data_offset) (h.data_offset - h.scales_offset),
  s.flags_known,
  s.some_dimension,
  s.few_dimensions,
  s.precision_known,
  s.payload,
  s.scales,
)

-- For a file size that fits a word, valid_header accepts exactly the headers with known flags, one
-- to four dimensions of which none is empty, a known precision, and both payloads past the header,
-- inside the file and without a common byte.
pub valid_header_iff : (h : Header) (n : ℕ) → n < word_mod → (valid_header h n ≡ true) ↔ IsSound h n
valid_header_iff h n b = (valid-IsSound h n b, IsSound-valid h n b)
