-- ===== src/Tokenizer/Bytes.antt =====
-- std::string as a list of bytes: equality and the searches for a byte.
use palm_infra.Common.{
  ℕ, suc, ◌==◌, Bool, true, false, ◌&&◌, Option, none, some, List, [], ◌∷◌, take, drop, ◌≡◌, refl,
  arith, if◌then◌else◌,
}

abbrev pub Bytes : Type 0
Bytes = List ℕ

unfoldable pub bytes_eq : Bytes → Bytes → Bool
bytes_eq [] [] = true
bytes_eq (b ∷ bs) (c ∷ cs) = b == c && bytes_eq bs cs
bytes_eq [] (c ∷ cs) = false
bytes_eq (b ∷ bs) [] = false

pub bytes_eq_refl : (s : Bytes) → bytes_eq s s ≡ true
unfolding bytes_eq
bytes_eq_refl [] = refl
bytes_eq_refl (b ∷ bs) = ground (arith, bytes_eq_refl bs)

pub bytes_eq-true : (s t : Bytes) → bytes_eq s t ≡ true → s ≡ t
unfolding bytes_eq
bytes_eq-true [] [] h = refl
bytes_eq-true (b ∷ bs) (c ∷ cs) h = ground (arith, bytes_eq-true bs cs)
bytes_eq-true [] (c ∷ cs) h = cc
bytes_eq-true (b ∷ bs) [] h = cc

-- std::string::find and rfind of one byte.
unfoldable pub find_byte : ℕ → Bytes → Option ℕ
find_byte c [] = none
find_byte c (b ∷ bs) =
    if b == c then some 0 else elim (find_byte c bs) [ some i ↦ some (suc i) | none ↦ none ]

unfoldable pub rfind_byte : ℕ → Bytes → Option ℕ
rfind_byte c [] = none
rfind_byte c (b ∷ bs) = elim (rfind_byte c bs) [
  | some i ↦ some (suc i)
  | none ↦ if b == c then some 0 else none
]

-- substr.
abbrev pub substr : Bytes → ℕ → ℕ → Bytes
substr s first count = take count (drop first s)
