-- ===== src/ByteRanges/Laws.antt =====
-- storage/byte_ranges.cpp: the normalised ranges and the lookup in them.
use mathlib.Core.List.{reverse, reverse-cons}
use palm_infra.Common.{
  ℕ, ◌≤◌, ◌<◌, ltb, word_mod, Bool, false, ◌||◌, none, some, List, [], ◌∷◌, ◌++◌, ◌≡◌, refl, ◌∙◌,
  arith, any_of, All, All-append,
}
use palm_infra.ByteRanges.{
  ByteRange, sort_pairs, merge_all, normalize_byte_ranges, before_upper_bound, range_contains,
}
use palm_infra.ByteRanges.Merging.{
  covers, inside, IsNormal, IsMerged, any_of-sort_pairs, sort_pairs-IsAscending, merge_all-IsMerged,
  inside-merge_all,
}

-- The same facts of the vector read from its front.
any_of-append :
    (f : ByteRange → Bool) (rs ss : List ByteRange)
    → any_of f (rs ++ ss) ≡ (any_of f rs || any_of f ss)
any_of-append f [] ss = refl
any_of-append f (r ∷ rs) ss = ground (arith, any_of-append f rs ss)

any_of-reverse : (f : ByteRange → Bool) (rs : List ByteRange) → any_of f (reverse rs) ≡ any_of f rs
any_of-reverse f [] = refl
any_of-reverse f (r ∷ rs) =
    rw (reverse-cons r rs, any_of-append f (reverse rs) (r ∷ []), any_of-reverse f rs)
      (ground arith)

All-reverse : (P : ByteRange → Type 0) (rs : List ByteRange) → All P rs → All P (reverse rs)
All-reverse P [] h = tt
All-reverse P (r ∷ rs) h =
    rw (reverse-cons r rs) (All-append P (reverse rs) (r ∷ []) (All-reverse P rs h.1) (h.0, tt))

IsNormal-snoc :
    (limit : ℕ) (rs : List ByteRange) (r : ByteRange)
    → IsNormal limit rs
    → All (λ s. s.end < r.begin) rs
    → r.begin < r.end
    → r.end ≤ limit
    → IsNormal limit (rs ++ r ∷ [])
IsNormal-snoc limit [] r n a h k = (h, k, tt, tt)
IsNormal-snoc limit (s ∷ rs) r n a h k = (
  n.0,
  n.1,
  All-append (λ t. s.end < t.begin) rs (r ∷ []) n.2 (a.0, tt),
  IsNormal-snoc limit rs r n.3 a.1 h k,
)

reverse-IsNormal :
    (limit : ℕ) (rs : List ByteRange) → IsMerged limit rs → IsNormal limit (reverse rs)
reverse-IsNormal limit [] m = tt
reverse-IsNormal limit (r ∷ rs) m = rw (reverse-cons r rs) (
    IsNormal-snoc limit (reverse rs) r (reverse-IsNormal limit rs m.3)
      (All-reverse (λ s. s.end < r.begin) rs m.2) m.0 m.1)

-- On normal ranges the element before the upper bound is the only one that can hold the position.
not-inside_below :
    (x b : ℕ) (rs : List ByteRange)
    → All (λ s. b < s.begin) rs
    → x ≤ b
    → any_of (inside x) rs ≡ false
unfolding inside
not-inside_below x b [] h l = refl
not-inside_below x b (r ∷ rs) h l = ground (arith, not-inside_below x b rs)

begins_after :
    (limit : ℕ) (r : ByteRange) (rs : List ByteRange)
    → IsNormal limit (r ∷ rs)
    → All (λ s. r.begin < s.begin) rs
begins_after limit r rs n = go rs n.2
  where
    go : (ss : List ByteRange) → All (λ s. r.end < s.begin) ss → All (λ s. r.begin < s.begin) ss
    go [] h = tt
    go (s ∷ ss) h = (omega arith, go ss h.1)

before_upper_bound-inside :
    (limit x : ℕ) (rs : List ByteRange)
    → IsNormal limit rs
    → (r : ByteRange) → r.begin ≤ x
    → All (λ s. r.end < s.begin) rs
    → elim (before_upper_bound x (some r) rs) [ none ↦ false | some q ↦ ltb x q.end ]
      ≡ (ltb x r.end || any_of (inside x) rs)
unfolding before_upper_bound inside
before_upper_bound-inside limit x [] n r b a = ground arith
before_upper_bound-inside limit x (s ∷ rs) n r b a = ground (
  arith,
  not-inside_below x s.begin rs (begins_after limit s rs n),
  before_upper_bound-inside limit x rs n.3 s,
)

range_contains-inside :
    (limit x : ℕ) (rs : List ByteRange)
    → IsNormal limit rs
    → range_contains rs x ≡ any_of (inside x) rs
unfolding range_contains inside
range_contains-inside limit x [] n = refl
range_contains-inside limit x (r ∷ rs) n = ground (
  arith,
  not-inside_below x r.begin rs (begins_after limit r rs n),
  before_upper_bound-inside limit x rs n.3 r,
)

-- Whatever pairs come in, below a limit that a 64-bit word can hold: the ranges that come out are
-- in ascending order, none is empty, none ends past the limit, and two of them never touch.
pub normalize_byte_ranges-IsNormal :
    (ps : List (ℕ × ℕ)) (limit : ℕ)
    → limit < word_mod
    → IsNormal limit (normalize_byte_ranges ps limit)
unfolding normalize_byte_ranges
normalize_byte_ranges-IsNormal ps limit w =
    reverse-IsNormal limit (merge_all limit [] (sort_pairs ps))
      (merge_all-IsMerged limit 0 [] (sort_pairs ps) w (sort_pairs-IsAscending ps) (tt, tt))

-- The lookup in the normalised ranges answers yes at exactly the positions below the limit that
-- some input pair covers, the end of a pair taken without wrap-around.
pub range_contains-normalize_byte_ranges :
    (ps : List (ℕ × ℕ)) (limit x : ℕ)
    → limit < word_mod
    → range_contains (normalize_byte_ranges ps limit) x ≡ any_of (covers limit x) ps
unfolding normalize_byte_ranges
range_contains-normalize_byte_ranges ps limit x w =
    range_contains-inside limit x (normalize_byte_ranges ps limit)
      (normalize_byte_ranges-IsNormal ps limit w)
    ∙ any_of-reverse (inside x) (merge_all limit [] (sort_pairs ps))
    ∙ inside-merge_all limit 0 x [] (sort_pairs ps) w (sort_pairs-IsAscending ps) (tt, tt)
    ∙ any_of-sort_pairs (covers limit x) ps
