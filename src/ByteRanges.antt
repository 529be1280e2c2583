-- ===== src/ByteRanges.antt =====
-- storage/byte_ranges.h and storage/byte_ranges.cpp: the normalised half-open file ranges, and the
-- lookup in them.
pub mod Merging
pub mod Laws
use palm_infra.Common.{
  ℕ, ◌-◌, min, max, ltb, leb, ◌==◌, add64, Bool, true, false, ◌&&◌, ◌||◌, Option, none, some, List,
  [], ◌∷◌, if◌then◌else◌,
}
use mathlib.Core.List.{reverse}

pub record ByteRange : Type 0 where
  pub begin : ℕ
  pub end : ℕ

-- operator< of std::pair.
pub pair_before : ℕ × ℕ → ℕ × ℕ → Bool
pair_before (a, b) (c, d) = ltb a c || (a == c && ltb b d)

pub insert_sorted : ℕ × ℕ → List (ℕ × ℕ) → List (ℕ × ℕ)
insert_sorted p [] = p ∷ []
insert_sorted p (q ∷ qs) = if pair_before q p then q ∷ insert_sorted p qs else p ∷ q ∷ qs

-- std::sort under a total order: its result is determined.
pub sort_pairs : List (ℕ × ℕ) → List (ℕ × ℕ)
sort_pairs [] = []
sort_pairs (p ∷ ps) = insert_sorted p (sort_pairs ps)

-- The body of the loop past its guard. The head of `merged` is the back of the vector.
pub place : ℕ → ℕ → List ByteRange → List ByteRange
place offset end [] = record { begin = offset; end = end } ∷ []
place offset end (back ∷ rest) =
    if ltb back.end offset
    then record { begin = offset; end = end } ∷ back ∷ rest
    else record back { end = max back.end end } ∷ rest

pub merge_one : ℕ → List ByteRange → ℕ × ℕ → List ByteRange
unfolding place
merge_one limit merged (offset, len) =
    if len == 0 || leb limit offset
    then merged
    else place offset (add64 offset (min len (limit - offset))) merged

pub merge_all : ℕ → List ByteRange → List (ℕ × ℕ) → List ByteRange
unfolding merge_one
merge_all limit merged [] = merged
merge_all limit merged (p ∷ ps) = merge_all limit (merge_one limit merged p) ps

unfoldable pub normalize_byte_ranges : List (ℕ × ℕ) → ℕ → List ByteRange
unfolding pair_before insert_sorted sort_pairs merge_one merge_all
normalize_byte_ranges offset_lengths limit =
    reverse (merge_all limit [] (sort_pairs offset_lengths))

-- The element before std::upper_bound: the last one up to the first whose begin exceeds the value.
pub before_upper_bound : ℕ → Option ByteRange → List ByteRange → Option ByteRange
before_upper_bound value previous [] = previous
before_upper_bound value previous (r ∷ rs) =
    if ltb value r.begin then previous else before_upper_bound value (some r) rs

unfoldable pub range_contains : List ByteRange → ℕ → Bool
unfolding before_upper_bound
range_contains ranges offset = elim (before_upper_bound offset none ranges) [
  | none ↦ false
  | some r ↦ ltb offset r.end
]
