-- ===== src/Wrapping.antt =====
-- libsponge/wrapping_integers.hh and wrapping_integers.cc: 32-bit sequence numbers and their
-- translation from and to 64-bit absolute sequence numbers. Signed results are kept as the bit
-- patterns that the C++ conversions leave.
pub mod Laws
mod Tests
use cs144_2021_sponge.Prelude.{
  ℕ, ◌+◌, ◌-◌, ◌%◌, ◌^◌, Bool, not, ltb, ◌==◌, if◌then◌else◌, add32, sub32, add64,
}

-- `WrappingInt32`.
pub record WrappingInt32 : Type 0 where
  pub raw_value : ℕ

-- The constructor from a `uint32_t`.
abbrev pub wrapping : ℕ → WrappingInt32
wrapping raw = record { raw_value = raw }

-- `operator-` of two wrapping integers: the bit pattern of the `int32_t` result.
abbrev pub offset_of : WrappingInt32 → WrappingInt32 → ℕ
offset_of a b = sub32 a.raw_value b.raw_value

-- `operator==` and `operator!=`.
unfoldable pub is_equal : WrappingInt32 → WrappingInt32 → Bool
is_equal a b = a.raw_value == b.raw_value

unfoldable pub is_different : WrappingInt32 → WrappingInt32 → Bool
unfolding is_equal
is_different a b = not (is_equal a b)

-- `operator+`: the point `b` steps past `a`.
abbrev pub plus : WrappingInt32 → ℕ → WrappingInt32
plus a b = wrapping (add32 a.raw_value b)

-- `operator-` with a count: `a + -b`.
unfoldable pub minus : WrappingInt32 → ℕ → WrappingInt32
minus a b = plus a (sub32 0 b)

-- `wrap`: the cast keeps the low 32 bits.
unfoldable pub wrap : ℕ → WrappingInt32 → WrappingInt32
wrap n isn = plus isn (n % 2 ^ 32)

-- The conversion from `int32_t` to `uint64_t`: it repeats the sign bit.
abbrev pub sign_extend : ℕ → ℕ
sign_extend w = if ltb w (2 ^ 31) then w else w + (2 ^ 64 - 2 ^ 32)

-- `unwrap`. `result < 0` reads the sign bit of the 64-bit sum.
unfoldable pub unwrap : WrappingInt32 → WrappingInt32 → ℕ → ℕ
unfolding wrap
unwrap n isn checkpoint =
    let offset = offset_of n (wrap checkpoint isn) in
    let result = add64 checkpoint (sign_extend offset) in
    if ltb result (2 ^ 63) then result else add64 result (2 ^ 32)
