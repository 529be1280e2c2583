-- ===== src/Common/Floats.antt =====
-- IEEE binary32 values by their bit patterns, as far as the source compares them: order, equality and
-- std::max. Both zeros are equal, and a NaN is neither before, after nor equal to anything.
use Prim.Native.Nat.{ℕ, ◌+◌, ◌-◌}
use mathlib.Core.Bool.{Bool, true, false, not, ◌&&◌}
use mathlib.Core.Path.{◌≡◌}
use native.Mathlib.Omega.{arith}
use palm_infra.Common.Tests.{ltb, ◌==◌, if◌then◌else◌}

abbrev pub Float32 : Type 0
Float32 = ℕ

abbrev sign_bit : ℕ
sign_bit = 2147483648

abbrev pub infinity_bits : ℕ
infinity_bits = 2139095040

-- The pattern without its sign.
abbrev pub magnitude_bits : Float32 → ℕ
magnitude_bits x = if ltb x sign_bit then x else x - sign_bit

-- Patterns on the line of the reals: the larger number has the larger key.
abbrev pub float_key : Float32 → ℕ
float_key x = if ltb x sign_bit then sign_bit + x else sign_bit - (x - sign_bit)

unfoldable pub is_nan : Float32 → Bool
is_nan x = ltb infinity_bits (magnitude_bits x)

unfoldable pub is_finite : Float32 → Bool
is_finite x = ltb (magnitude_bits x) infinity_bits

unfoldable pub float_lt : Float32 → Float32 → Bool
unfolding is_nan
float_lt x y = not (is_nan x) && not (is_nan y) && ltb (float_key x) (float_key y)

unfoldable pub float_eq : Float32 → Float32 → Bool
unfolding is_nan
float_eq x y = not (is_nan x) && not (is_nan y) && float_key x == float_key y

-- 0.0f and 1.0f.
abbrev pub float_zero : Float32
float_zero = 0

abbrev pub float_one : Float32
float_one = 1065353216

-- std::max(a, b) is (a < b) ? b : a.
unfoldable pub float_max : Float32 → Float32 → Float32
float_max a b = if float_lt a b then b else a

pub float_lt_irrefl : (x : Float32) → float_lt x x ≡ false
unfolding float_lt
float_lt_irrefl x = ground arith

pub float_lt_trans :
    (x y z : Float32) → float_lt x y ≡ true → float_lt y z ≡ true → float_lt x z ≡ true
unfolding float_lt
float_lt_trans x y z h k = ground arith

-- Among numbers, each of two is before the other or they are equal.
pub float_lt_total :
    (x y : Float32)
    → is_nan x ≡ false
    → is_nan y ≡ false
    → float_lt x y ≡ false
    → float_eq x y ≡ false
    → float_lt y x ≡ true
unfolding float_lt float_eq
float_lt_total x y p q h k = ground arith
