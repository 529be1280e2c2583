-- ===== src/MappedFile/Handles.antt =====
-- storage/mapped_file.cpp outside Windows: map_file, open, close and the moves of a mapped file, over
-- the mappings and file descriptors that the process holds. What the system answers is an argument.
pub mod Mappings
pub mod Ownership
use palm_infra.Common.{
  ℕ, ◌+◌, ◌-◌, ◌==◌, Bool, true, false, ◌&&◌, Option, none, some, List, [], ◌∷◌, ◌++◌, set,
  get_elem?, if◌then◌else◌,
}
use palm_infra.MappedFile.{Header, no_header, parse_header}

pub record MappedFile : Type 0 where
  pub mapped : Option ℕ
  pub file_size : ℕ
  pub header : Header

abbrev pub no_file : MappedFile
no_file = record { mapped = none; file_size = 0; header = no_header }

-- The live mappings as addresses with sizes, and the number of open descriptors.
pub record Process : Type 0 where
  pub live : List (ℕ × ℕ)
  pub descriptors : ℕ

-- What open, fstat and mmap answer for a path, and the bytes behind the mapping.
pub record Answers : Type 0 where
  pub opens : Bool
  pub stat_size : Option ℕ
  pub address : Option ℕ
  pub contents : List ℕ

abbrev pub same_mapping : ℕ × ℕ → ℕ × ℕ → Bool
same_mapping (a, n) (b, m) = a == b && n == m

-- munmap.
pub remove_mapping : ℕ × ℕ → List (ℕ × ℕ) → List (ℕ × ℕ)
remove_mapping m [] = []
remove_mapping m (k ∷ ks) = if same_mapping m k then ks else k ∷ remove_mapping m ks

pub unmap_file : ℕ → ℕ → Process → Process
unmap_file ptr size w = record w { live = remove_mapping (ptr, size) w.live }

pub close_fd : Process → Process
close_fd w = record w { descriptors = w.descriptors - 1 }

-- The mmap call and what follows it, with the descriptor open.
pub map_open_file : Answers → ℕ → Process → Option (ℕ × ℕ) × Process
unfolding close_fd
map_open_file answers size w = elim answers.address [
  | none ↦ (none, close_fd w)
  | some ptr ↦ (some (ptr, size), close_fd (record w { live = (ptr, size) ∷ w.live }))
]

pub map_sized : Answers → Process → Option (ℕ × ℕ) × Process
unfolding map_open_file close_fd
map_sized answers w = elim answers.stat_size [
  | none ↦ (none, close_fd w)
  | some size ↦ map_open_file answers size w
]

unfoldable pub map_file : Answers → Process → Option (ℕ × ℕ) × Process
unfolding map_sized
map_file answers w =
    if answers.opens
    then map_sized answers (record w { descriptors = w.descriptors + 1 })
    else (none, w)

unfoldable pub close : MappedFile → Process → MappedFile × Process
unfolding unmap_file
close f w = elim f.mapped [
  | none ↦ (record f { header = no_header }, w)
  | some ptr ↦ (no_file, unmap_file ptr f.file_size w)
]

-- The checks of a fresh mapping, in a file that has been closed.
pub adopt : Answers → MappedFile → ℕ → ℕ → Process → MappedFile × Process × Bool
unfolding unmap_file
adopt answers f ptr size w =
    let parsed = parse_header answers.contents size in
    let f' = record f { header = parsed.0 } in
    if parsed.1
    then (record f' { mapped = some ptr; file_size = size }, w, true)
    else (f', unmap_file ptr size w, false)

pub open_mapped : Answers → MappedFile → Option (ℕ × ℕ) × Process → MappedFile × Process × Bool
unfolding adopt
open_mapped answers f (none, w) = (f, w, false)
open_mapped answers f (some (ptr, size), w) = adopt answers f ptr size w

unfoldable pub open_file : Answers → MappedFile → Process → MappedFile × Process × Bool
unfolding close map_file open_mapped
open_file answers f w = let (f', w') = close f w in open_mapped answers f' (map_file answers w')

-- The objects of a program by their numbers, with the process they live in.
pub record Objects : Type 0 where
  pub files : List MappedFile
  pub process : Process

-- The calls on these objects. An object is destroyed by close.
pub data Call : Type 0 where
  open_at : Answers → ℕ → Call
  close_at : ℕ → Call
  move_construct : ℕ → Call
  move_assign : ℕ → ℕ → Call

unfoldable pub put_file : Objects → ℕ → MappedFile → Process → Objects
put_file s i f w = record { files = set s.files i f; process = w }

-- operator=: the first object takes over what the second one holds, if they are two.
pub assign : Objects → ℕ → ℕ → MappedFile → MappedFile → Objects
unfolding close put_file
assign s i j this other =
    if i == j
    then s
    else let closed = close this s.process in
      put_file (put_file s i other closed.1) j no_file closed.1

-- A call on an object that does not exist does nothing.
unfoldable pub call : Objects → Call → Objects
unfolding open_file assign put_file
call s (Call.open_at answers i) = elim (get_elem? s.files i) [
  | none ↦ s
  | some f ↦ let r = open_file answers f s.process in put_file s i r.0 r.1
]
call s (Call.close_at i) = elim (get_elem? s.files i) [
  | none ↦ s
  | some f ↦ let r = close f s.process in put_file s i r.0 r.1
]
call s (Call.move_construct i) = elim (get_elem? s.files i) [
  | none ↦ s
  | some f ↦ record { files = set s.files i no_file ++ f ∷ []; process = s.process }
]
call s (Call.move_assign i j) = elim (get_elem? s.files i) [
  | none ↦ s
  | some this ↦ elim (get_elem? s.files j) [ none ↦ s | some other ↦ assign s i j this other ]
]

unfoldable pub calls : Objects → List Call → Objects
unfolding call
calls s [] = s
calls s (c ∷ cs) = calls (call s c) cs
