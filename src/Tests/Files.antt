-- ===== src/Tests/Files.antt =====
-- Concrete runs of the theorems on mapped files.
use palm_infra.Common.{ℕ, ◌≡◌, ◌↔◌, ◌⊎◌, refl, arith, true, false, some, List, [], ◌∷◌, ◌++◌, take}
use palm_infra.MappedFile.{Header, no_header, xmap_magic, valid_header, parse_header}
use palm_infra.MappedFile.Bytes.{Fits, header_bytes}
use palm_infra.MappedFile.Format.{parse_header-header_bytes, header_bytes-parse_header}
use palm_infra.MappedFile.Ranges.{IsSound, valid_header_iff}
use palm_infra.MappedFile.Handles.{no_file, Answers, Objects, Call, calls}
use palm_infra.MappedFile.Handles.Mappings.{IsOwned}
use palm_infra.MappedFile.Handles.Ownership.{calls-IsOwned}

-- Three fp32 values at offset 128 of a file of 140 bytes.
abbrev three_floats : Header
three_floats = record {
  magic = xmap_magic;
  flags = 0;
  ndim = 1;
  precision = 0;
  shape = 3 ∷ 0 ∷ 0 ∷ 0 ∷ [];
  data_offset = 128;
  data_size = 12;
  scales_offset = 0;
  scales_size = 0;
  group_size = 0;
  num_groups = 0;
}

three_floats-Fits : Fits three_floats
three_floats-Fits = record {
  magic = omega arith;
  flags = omega arith;
  ndim = omega arith;
  precision = omega arith;
  four = refl;
  shape = omega arith;
  data_offset = omega arith;
  data_size = omega arith;
  scales_offset = omega arith;
  scales_size = omega arith;
  group_size = omega arith;
  num_groups = omega arith;
}

three_floats_valid : valid_header three_floats 140 ≡ true
unfolding valid_header
three_floats_valid = refl

valid_header_iff_example : (valid_header three_floats 140 ≡ true) ↔ IsSound three_floats 140
valid_header_iff_example = valid_header_iff three_floats 140 (omega arith)

parse_header-header_bytes_example :
    parse_header (header_bytes three_floats ++ []) 140 ≡ (three_floats, true)
parse_header-header_bytes_example =
    parse_header-header_bytes three_floats [] 140 three_floats-Fits refl (omega arith)
      three_floats_valid

abbrev garbage : List ℕ
garbage = 88 ∷ 77 ∷ 65 ∷ []

header_bytes-parse_header_example :
    ((parse_header garbage 3).1 ≡ true)
      × (header_bytes (parse_header garbage 3).0 ≡ take 88 garbage)
      × ((parse_header garbage 3).0.magic ≡ xmap_magic)
      × (valid_header (parse_header garbage 3).0 3 ≡ true)
    ⊎ (parse_header garbage 3 ≡ (no_header, false))
header_bytes-parse_header_example = header_bytes-parse_header garbage 3 (omega arith) refl

abbrev two_objects : Objects
two_objects = record {
  files = no_file ∷ no_file ∷ [];
  process = record { live = []; descriptors = 0 };
}

two_objects-IsOwned : IsOwned two_objects
two_objects-IsOwned = record { owned = λ k. refl; consistent = (refl, (refl, tt)) }

-- A mapping of a file that is too short, and then a move of the closed object onto itself.
abbrev short_file : Answers
short_file = record { opens = true; stat_size = some 3; address = some 4096; contents = garbage }

abbrev some_calls : List Call
some_calls = Call.open_at short_file 0 ∷ Call.move_assign 0 0 ∷ Call.move_assign 1 0 ∷ []

calls-IsOwned_example :
    IsOwned (calls two_objects some_calls)
    × ((calls two_objects some_calls).process.descriptors ≡ 0)
calls-IsOwned_example = calls-IsOwned two_objects some_calls two_objects-IsOwned
