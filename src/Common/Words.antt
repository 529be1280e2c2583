-- ===== src/Common/Words.antt =====
-- Unsigned machine words: `size_t` and `uint64_t` values are numbers below `word_mod`, and every
-- sum or product of theirs that may wrap is written with its wrap-around.
use Prim.Native.Nat.{ℕ, ◌+◌, ◌-◌, ◌*◌, ◌%◌, ◌<◌}
use mathlib.Core.Path.{◌≡◌}
use native.Mathlib.Omega.{arith}
use native.Mathlib.Nat.{mod-eq_of_lt}

abbrev pub word_mod : ℕ
word_mod = 18446744073709551616

-- std::numeric_limits<uint64_t>::max(), also that of size_t.
abbrev pub word_max : ℕ
word_max = 18446744073709551615

abbrev pub add64 : ℕ → ℕ → ℕ
add64 a b = (a + b) % word_mod

abbrev pub mul64 : ℕ → ℕ → ℕ
mul64 a b = (a * b) % word_mod

abbrev pub sub64 : ℕ → ℕ → ℕ
sub64 a b = (a + word_mod - b) % word_mod

pub mul64_small : (a b : ℕ) → a * b < word_mod → mul64 a b ≡ a * b
mul64_small a b h = mod-eq_of_lt h

pub add64_small : (a b : ℕ) → a + b < word_mod → add64 a b ≡ a + b
add64_small a b h = omega arith
