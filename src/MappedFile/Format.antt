-- ===== src/MappedFile/Format.antt =====
-- storage/mapped_file.h: the layout of the header that the comment at the top describes, as a writer.
use palm_infra.Common.{
  ℕ, ◌+◌, ◌≤◌, ◌<◌, Bool, true, false, ◌≡◌, arith, take, drop, List, [], ◌∷◌, ◌++◌, refl, ap, subst,
  inl, inr, ◌⊎◌, if◌then◌else◌, ltb, not, ◌||◌, ◌==◌, length, length-drop, take-slices, All,
  All-drop, sym,
}
use mathlib.Core.List.{append_assoc}
use palm_infra.MappedFile.{
  Header, no_header, from_le, read_header, parse_header, valid_header, xmap_magic,
}
use palm_infra.MappedFile.Bytes.{
  le_bytes, shape_bytes, header_bytes, le_bytes-from_le, u32_back, u64_back, Fits,
}

-- A header whose array is written out.
abbrev with_shape : Header → ℕ → ℕ → ℕ → ℕ → Header
with_shape h a b c d = record h { shape = a ∷ b ∷ c ∷ d ∷ [] }

read-written_shape :
    (h : Header) (a b c d : ℕ) (rest : List ℕ)
    → Fits (with_shape h a b c d)
    → read_header (header_bytes (with_shape h a b c d) ++ rest) ≡ with_shape h a b c d
unfolding read_header header_bytes shape_bytes le_bytes from_le
read-written_shape h a b c d rest w = λ i. record {
  magic = u32_back w.magic i;
  flags = u32_back w.flags i;
  ndim = u32_back w.ndim i;
  precision = u32_back w.precision i;
  shape =
      u64_back w.shape.0 i
      ∷ u64_back w.shape.1.0 i
      ∷ u64_back w.shape.1.1.0 i
      ∷ u64_back w.shape.1.1.1.0 i
      ∷ [];
  data_offset = u64_back w.data_offset i;
  data_size = u64_back w.data_size i;
  scales_offset = u64_back w.scales_offset i;
  scales_size = u64_back w.scales_size i;
  group_size = u32_back w.group_size i;
  num_groups = u32_back w.num_groups i;
}

read-written :
    (h : Header) (shape : List ℕ) (rest : List ℕ)
    → h.shape ≡ shape
    → length shape ≡ 4
    → Fits h
    → read_header (header_bytes h ++ rest) ≡ h
read-written h (a ∷ b ∷ c ∷ d ∷ []) rest e len w =
    let same : h ≡ with_shape h a b c d = λ i. record h { shape = e i } in
    subst (λ (k : Header). read_header (header_bytes k ++ rest) ≡ k) (sym same)
      (read-written_shape h a b c d rest (subst Fits same w))
read-written h [] rest e len w = absurd (omega arith)
read-written h (a ∷ []) rest e len w = absurd (omega arith)
read-written h (a ∷ b ∷ []) rest e len w = absurd (omega arith)
read-written h (a ∷ b ∷ c ∷ []) rest e len w = absurd (omega arith)
read-written h (a ∷ b ∷ c ∷ d ∷ f ∷ ds) rest e len w = absurd (omega arith)

accepts :
    (bytes : List ℕ) (h : Header) (size : ℕ)
    → read_header bytes ≡ h
    → h.magic ≡ xmap_magic
    → 88 ≤ size
    → valid_header h size ≡ true
    → parse_header bytes size ≡ (h, true)
unfolding parse_header
accepts bytes h size e m n v = rw (e, v) (ground arith)

-- A header written in the documented layout, with any bytes after it, is read back as it was, if its
-- fields are in the range of their types, its magic is right, and it is valid for the whole size.
pub parse_header-header_bytes :
    (h : Header) (rest : List ℕ) (size : ℕ)
    → Fits h
    → h.magic ≡ xmap_magic
    → 88 ≤ size
    → valid_header h size ≡ true
    → parse_header (header_bytes h ++ rest) size ≡ (h, true)
unfolding parse_header
parse_header-header_bytes h rest size w m n v =
    accepts (header_bytes h ++ rest) h size (read-written h h.shape rest refl w.four w) m n v

-- The integer of so many bytes at an offset, written again.
rewritten :
    (n a : ℕ) (bytes : List ℕ)
    → All (λ b. b < 256) bytes
    → n + a ≤ length bytes
    → le_bytes n (from_le n (drop a bytes)) ≡ take n (drop a bytes)
rewritten n a bytes w h =
    le_bytes-from_le n (drop a bytes) (All-drop (λ b. b < 256) a bytes w)
      (omega (arith, length-drop a bytes))

-- One more integer in front of a slice.
piece :
    (n a m : ℕ) (bytes : List ℕ) {tail : List ℕ}
    → All (λ b. b < 256) bytes
    → n + a ≤ length bytes
    → tail ≡ take m (drop (a + n) bytes)
    → le_bytes n (from_le n (drop a bytes)) ++ tail ≡ take (n + m) (drop a bytes)
piece n a m bytes w h e = rw (e, rewritten n a bytes w h) (take-slices a n m bytes)

shape_bytes_flat :
    (a b c d : ℕ) (tail : List ℕ)
    → shape_bytes (a ∷ b ∷ c ∷ d ∷ []) ++ tail
      ≡ le_bytes 8 a ++ (le_bytes 8 b ++ (le_bytes 8 c ++ (le_bytes 8 d ++ tail)))
unfolding shape_bytes
shape_bytes_flat a b c d tail = simp append_assoc

header_bytes-read_header :
    (bytes : List ℕ)
    → All (λ b. b < 256) bytes
    → 88 ≤ length bytes
    → header_bytes (read_header bytes) ≡ take 88 bytes
unfolding header_bytes read_header
header_bytes-read_header bytes w n = rw shape_bytes_flat (
    piece 4 0 84 bytes w (omega arith) (
      piece 4 4 80 bytes w (omega arith) (
        piece 4 8 76 bytes w (omega arith) (
          piece 4 12 72 bytes w (omega arith) (
            piece 8 16 64 bytes w (omega arith) (
              piece 8 24 56 bytes w (omega arith) (
                piece 8 32 48 bytes w (omega arith) (
                  piece 8 40 40 bytes w (omega arith) (
                    piece 8 48 32 bytes w (omega arith) (
                      piece 8 56 24 bytes w (omega arith) (
                        piece 8 64 16 bytes w (omega arith) (
                          piece 8 72 8 bytes w (omega arith) (
                            piece 4 80 4 bytes w (omega arith)
                              (rewritten 4 84 bytes w (omega arith)))))))))))))))

-- The two ends of parse_header.
abbrev gated : Bool → Bool → Header → Header × Bool
gated short bad h =
    if short then (no_header, false) else if bad then (no_header, false) else (h, true)

gate :
    (short bad : Bool) (h : Header)
    → (gated short bad h ≡ (h, true)) × (short ≡ false) × (bad ≡ false)
      ⊎ (gated short bad h ≡ (no_header, false))
gate true bad h = inr refl
gate false true h = inr refl
gate false false h = inl (refl, refl, refl)

pub parse_header_cases :
    (bytes : List ℕ) (size : ℕ)
    → (parse_header bytes size ≡ (read_header bytes, true))
        × (88 ≤ size)
        × (valid_header (read_header bytes) size ≡ true)
        × ((read_header bytes).magic ≡ xmap_magic)
      ⊎ (parse_header bytes size ≡ (no_header, false))
unfolding parse_header
parse_header_cases bytes size =
    let h = read_header bytes in
    elim (gate (ltb size 88) (not (h.magic == xmap_magic) || not (valid_header h size)) h) [
      | inl (e, p, q) ↦ inl (e, ground arith, ground arith, ground arith)
      | inr e ↦ inr e
    ]

-- If the bytes are as many as the size says, a header is accepted only from bytes that are the
-- documented layout of that header, with the magic of the format; the header is then valid. A
-- refusal leaves a header of zeros.
pub header_bytes-parse_header :
    (bytes : List ℕ) (size : ℕ)
    → All (λ b. b < 256) bytes
    → length bytes ≡ size
    → ((parse_header bytes size).1 ≡ true)
        × (header_bytes (parse_header bytes size).0 ≡ take 88 bytes)
        × ((parse_header bytes size).0.magic ≡ xmap_magic)
        × (valid_header (parse_header bytes size).0 size ≡ true)
      ⊎ (parse_header bytes size ≡ (no_header, false))
header_bytes-parse_header bytes size w e = elim (parse_header_cases bytes size) [
  | inl (p, n, v, m) ↦ inl (
    ap (λ (r : Header × Bool). r.1) p,
    rw p (header_bytes-read_header bytes w (omega arith)),
    rw p m,
    rw p v,
  )
  | inr p ↦ inr p
]
