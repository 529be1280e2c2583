-- ===== src/MappedFile/Handles/Mappings.antt =====
-- storage/mapped_file.cpp: the mappings that open and close take and give back.
use palm_infra.Common.{
  ℕ, ◌+◌, ◌≤◌, true, Option, none, some, List, [], ◌∷◌, if◌then◌else◌, sum_of, All, ◌≡◌, refl, ◌∙◌,
  arith, inl, inr,
}
use palm_infra.MappedFile.{no_header, valid_header}
use palm_infra.MappedFile.Format.{parse_header_cases}
use palm_infra.MappedFile.Handles.{
  MappedFile, Process, Answers, same_mapping, remove_mapping, unmap_file, close_fd, map_open_file,
  map_sized, map_file, close, adopt, open_mapped, open_file, Objects,
}

abbrev pub hit : ℕ × ℕ → ℕ × ℕ → ℕ
hit k m = if same_mapping k m then 1 else 0

-- How often a mapping is live.
abbrev pub count : ℕ × ℕ → List (ℕ × ℕ) → ℕ
count k ms = sum_of (hit k) ms

-- Whether this object holds the mapping.
abbrev pub owns : ℕ × ℕ → MappedFile → ℕ
owns k f = elim f.mapped [ none ↦ 0 | some ptr ↦ hit k (ptr, f.file_size) ]

-- An open object has a header that is valid for its file, a closed one has a header of zeros.
abbrev pub Consistent : MappedFile → Type 0
Consistent f = elim f.mapped [
  | none ↦ f.header ≡ no_header
  | some ptr ↦ valid_header f.header f.file_size ≡ true
]

-- Every live mapping has one owner, and every open object owns a live mapping.
pub record IsOwned (s : Objects) : Type 0 where
  pub owned : (k : ℕ × ℕ) → sum_of (owns k) s.files ≡ count k s.process.live
  pub consistent : All Consistent s.files

count-remove_mapping :
    (k m : ℕ × ℕ) (ms : List (ℕ × ℕ))
    → 1 ≤ count m ms
    → count k (remove_mapping m ms) + hit k m ≡ count k ms
unfolding remove_mapping
count-remove_mapping k m [] h = absurd (omega arith)
count-remove_mapping k m (n ∷ ms) h = ground (arith, count-remove_mapping k m ms)

-- The mappings an operation on one object takes and gives.
count-unmap_file :
    (k : ℕ × ℕ) (ptr size : ℕ) (w : Process)
    → 1 ≤ count (ptr, size) w.live
    → count k (unmap_file ptr size w).live + hit k (ptr, size) ≡ count k w.live
unfolding unmap_file
count-unmap_file k ptr size w h = count-remove_mapping k (ptr, size) w.live h

-- The object's mapping is among the live ones.
abbrev pub Backed : MappedFile → Process → Type 0
Backed f w = (k : ℕ × ℕ) → owns k f ≤ count k w.live

hit_self : (a b : ℕ) → hit (a, b) (a, b) ≡ 1
hit_self a b = ground arith

pub count-close :
    (k : ℕ × ℕ) (f : MappedFile) (w : Process)
    → Backed f w
    → count k (close f w).1.live + owns k f ≡ count k w.live
unfolding close
count-close k f w h = by_state f.mapped h
  where
    by_state :
        (m : Option ℕ)
        → Backed (record f { mapped = m }) w
        → count k (close (record f { mapped = m }) w).1.live + owns k (record f { mapped = m })
          ≡ count k w.live
    by_state none b = omega arith
    by_state (some ptr) b =
        count-unmap_file k ptr f.file_size w
          (omega (arith, b (ptr, f.file_size), hit_self ptr f.file_size))

pub close_closed :
    (k : ℕ × ℕ) (f : MappedFile) (w : Process)
    → ((close f w).0.mapped ≡ none)
      × ((close f w).0.header ≡ no_header)
      × ((close f w).1.descriptors ≡ w.descriptors)
unfolding close unmap_file
close_closed k f w = ground arith

abbrev taken : ℕ × ℕ → Option (ℕ × ℕ) → ℕ
taken k none = 0
taken k (some m) = hit k m

count-map_file :
    (k : ℕ × ℕ) (answers : Answers) (w : Process)
    → (count k (map_file answers w).1.live ≡ count k w.live + taken k (map_file answers w).0)
      × ((map_file answers w).1.descriptors ≡ w.descriptors)
unfolding map_file map_sized map_open_file close_fd
count-map_file k answers w = ground arith

adopt_lem :
    (k : ℕ × ℕ) (answers : Answers) (f : MappedFile) (ptr size : ℕ) (w : Process)
    → f.mapped ≡ none
    → 1 ≤ count (ptr, size) w.live
    → let r = adopt answers f ptr size w in
      (count k r.1.live + hit k (ptr, size) ≡ count k w.live + owns k r.0)
      × Consistent r.0
      × (r.1.descriptors ≡ w.descriptors)
unfolding adopt
adopt_lem k answers f ptr size w e h = elim (parse_header_cases answers.contents size) [
  | inl (p, n, v, m) ↦ rw p (omega arith, v, refl)
  | inr p ↦
      rw (p, e) (omega (arith, count-unmap_file k ptr size w h), refl, unfold unmap_file in refl)
]

open_mapped_lem :
    (k : ℕ × ℕ) (answers : Answers) (f : MappedFile) (m : Option (ℕ × ℕ)) (w : Process)
    → f.mapped ≡ none
    → f.header ≡ no_header
    → ((j : ℕ × ℕ) → taken j m ≤ count j w.live)
    → let r = open_mapped answers f (m, w) in
      (count k r.1.live + taken k m ≡ count k w.live + owns k r.0)
      × Consistent r.0
      × (r.1.descriptors ≡ w.descriptors)
unfolding open_mapped
open_mapped_lem k answers f none w e z h = rw e (omega arith, z, refl)
open_mapped_lem k answers f (some (ptr, size)) w e z h =
    adopt_lem k answers f ptr size w e (omega (arith, h (ptr, size), hit_self ptr size))

pub open_file_lem :
    (k : ℕ × ℕ) (answers : Answers) (f : MappedFile) (w : Process)
    → Backed f w
    → let r = open_file answers f w in
      (count k r.1.live + owns k f ≡ count k w.live + owns k r.0)
      × Consistent r.0
      × (r.1.descriptors ≡ w.descriptors)
unfolding open_file
open_file_lem k answers f w b =
    let c = close f w in
    let z = close_closed k f w in
    let m = map_file answers c.1 in
    let o =
      open_mapped_lem k answers c.0 m.0 m.1 z.0 z.1
        (λ j. omega (arith, count-map_file j answers c.1)) in
    (
      omega (arith, o.0, count-map_file k answers c.1, count-close k f w b),
      o.1,
      o.2 ∙ (count-map_file k answers c.1).1 ∙ z.2,
    )
