-- ===== src/ByteRanges/Merging.antt =====
-- The loop of normalize_byte_ranges and the vector that it builds.
use palm_infra.Common.{
  ℕ, ◌+◌, ◌-◌, ◌≤◌, ◌<◌, min, ltb, leb, add64, word_mod, Bool, ◌&&◌, ◌||◌, List, [], ◌∷◌, ◌≡◌, refl,
  ap, ◌∙◌, arith, any_of, All,
}
use palm_infra.ByteRanges.{
  ByteRange, pair_before, insert_sorted, sort_pairs, place, merge_one, merge_all,
}

-- Whether an input pair covers a position below the limit.
pub covers : ℕ → ℕ → ℕ × ℕ → Bool
covers limit x (offset, len) = leb offset x && ltb x (offset + len) && ltb x limit

unfoldable pub inside : ℕ → ByteRange → Bool
inside x r = leb r.begin x && ltb x r.end

-- Ascending, not empty, no two of them touching, and none beyond the limit.
abbrev pub IsNormal : ℕ → List ByteRange → Type 0
IsNormal limit [] = Unit {0}
IsNormal limit (r ∷ rs) =
    (r.begin < r.end) × (r.end ≤ limit) × All (λ s. r.end < s.begin) rs × IsNormal limit rs

abbrev pub IsMerged : ℕ → List ByteRange → Type 0
IsMerged limit [] = Unit {0}
IsMerged limit (r ∷ rs) =
    (r.begin < r.end) × (r.end ≤ limit) × All (λ s. s.end < r.begin) rs × IsMerged limit rs

abbrev IsAscending : ℕ → List (ℕ × ℕ) → Type 0
IsAscending low [] = Unit {0}
IsAscending low (p ∷ ps) = (low ≤ p.0) × IsAscending p.0 ps

any_of-insert_sorted :
    (f : ℕ × ℕ → Bool) (p : ℕ × ℕ) (qs : List (ℕ × ℕ))
    → any_of f (insert_sorted p qs) ≡ (f p || any_of f qs)
unfolding insert_sorted
any_of-insert_sorted f p [] = refl
any_of-insert_sorted f p (q ∷ qs) = ground (arith, any_of-insert_sorted f p qs)

pub any_of-sort_pairs :
    (f : ℕ × ℕ → Bool) (ps : List (ℕ × ℕ)) → any_of f (sort_pairs ps) ≡ any_of f ps
unfolding sort_pairs
any_of-sort_pairs f [] = refl
any_of-sort_pairs f (p ∷ ps) =
    ground (arith, any_of-insert_sorted f p (sort_pairs ps), any_of-sort_pairs f ps)

insert_sorted-IsAscending :
    (low : ℕ) (p : ℕ × ℕ) (qs : List (ℕ × ℕ))
    → low ≤ p.0
    → IsAscending low qs
    → IsAscending low (insert_sorted p qs)
unfolding insert_sorted pair_before
insert_sorted-IsAscending low p [] h a = (h, tt)
insert_sorted-IsAscending low p (q ∷ qs) h a = ground (arith, insert_sorted-IsAscending q.0 p qs)

pub sort_pairs-IsAscending : (ps : List (ℕ × ℕ)) → IsAscending 0 (sort_pairs ps)
unfolding sort_pairs
sort_pairs-IsAscending [] = tt
sort_pairs-IsAscending (p ∷ ps) =
    insert_sorted-IsAscending 0 p (sort_pairs ps) (omega arith) (sort_pairs-IsAscending ps)

-- What the loop keeps of its vector, whose elements start at or before the pairs that are left.
abbrev IsOpen : ℕ → ℕ → List ByteRange → Type 0
IsOpen limit low merged = IsMerged limit merged × All (λ r. r.begin ≤ low) merged

ends_before :
    (b c : ℕ) (rs : List ByteRange) → All (λ s. s.end < b) rs → b ≤ c → All (λ s. s.end < c) rs
ends_before b c [] h l = tt
ends_before b c (r ∷ rs) h l = (omega arith, ends_before b c rs h.1 l)

begins_before :
    (b c : ℕ) (rs : List ByteRange) → All (λ s. s.begin ≤ b) rs → b ≤ c → All (λ s. s.begin ≤ c) rs
begins_before b c [] h l = tt
begins_before b c (r ∷ rs) h l = (omega arith, begins_before b c rs h.1 l)

place-IsOpen :
    (limit low offset end : ℕ) (merged : List ByteRange)
    → low ≤ offset
    → offset < end
    → end ≤ limit
    → IsOpen limit low merged
    → IsOpen limit offset (place offset end merged)
unfolding place
place-IsOpen limit low offset end [] l h k o = omega arith
place-IsOpen limit low offset end (back ∷ rest) l h k o =
    ground (arith, ends_before back.begin offset rest, begins_before low offset rest)

inside-place :
    (limit low offset end x : ℕ) (merged : List ByteRange)
    → low ≤ offset
    → IsOpen limit low merged
    → any_of (inside x) (place offset end merged)
      ≡ (any_of (inside x) merged || (leb offset x && ltb x end))
unfolding place inside
inside-place limit low offset end x [] l o = ground arith
inside-place limit low offset end x (back ∷ rest) l o = ground arith

merge_one-IsOpen :
    (limit low : ℕ) (merged : List ByteRange) (p : ℕ × ℕ)
    → limit < word_mod
    → low ≤ p.0
    → IsOpen limit low merged
    → IsOpen limit p.0 (merge_one limit merged p)
unfolding merge_one
merge_one-IsOpen limit low merged (offset, len) w l o = ground (
  arith,
  begins_before low offset merged,
  place-IsOpen limit low offset (add64 offset (min len (limit - offset))) merged,
)

inside-merge_one :
    (limit low x : ℕ) (merged : List ByteRange) (p : ℕ × ℕ)
    → limit < word_mod
    → low ≤ p.0
    → IsOpen limit low merged
    → any_of (inside x) (merge_one limit merged p) ≡ (any_of (inside x) merged || covers limit x p)
unfolding merge_one covers
inside-merge_one limit low x merged (offset, len) w l o =
    ground (arith, inside-place limit low offset (add64 offset (min len (limit - offset))) x merged)

or_assoc : (a b c : Bool) → ((a || b) || c) ≡ (a || (b || c))
or_assoc a b c = ground arith

pub merge_all-IsMerged :
    (limit low : ℕ) (merged : List ByteRange) (ps : List (ℕ × ℕ))
    → limit < word_mod
    → IsAscending low ps
    → IsOpen limit low merged
    → IsMerged limit (merge_all limit merged ps)
unfolding merge_all
merge_all-IsMerged limit low merged [] w a o = o.0
merge_all-IsMerged limit low merged (p ∷ ps) w a o =
    merge_all-IsMerged limit p.0 (merge_one limit merged p) ps w a.1
      (merge_one-IsOpen limit low merged p w a.0 o)

pub inside-merge_all :
    (limit low x : ℕ) (merged : List ByteRange) (ps : List (ℕ × ℕ))
    → limit < word_mod
    → IsAscending low ps
    → IsOpen limit low merged
    → any_of (inside x) (merge_all limit merged ps)
      ≡ (any_of (inside x) merged || any_of (covers limit x) ps)
unfolding merge_all
inside-merge_all limit low x merged [] w a o = ground arith
inside-merge_all limit low x merged (p ∷ ps) w a o =
    inside-merge_all limit p.0 x (merge_one limit merged p) ps w a.1
      (merge_one-IsOpen limit low merged p w a.0 o)
    ∙ ap (λ b. b || any_of (covers limit x) ps) (inside-merge_one limit low x merged p w a.0 o)
    ∙ or_assoc (any_of (inside x) merged) (covers limit x p) (any_of (covers limit x) ps)
