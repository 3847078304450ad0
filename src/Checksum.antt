-- ===== src/Checksum.antt =====
-- `InternetChecksum` of libsponge/util/util.hh and util.cc: the sum of 16-bit words with the carry
-- folded back.
pub mod Laws
mod Tests
use cs144_2021_sponge.Prelude.{
  ℕ, zero, suc, ◌+◌, ◌-◌, ◌*◌, ◌/◌, ◌%◌, ◌^◌, Bool, true, false, not, List, [], ◌∷◌, ltb,
  if◌then◌else◌, add32,
}

-- The members of `InternetChecksum`.
pub record InternetChecksum : Type 0 where
  pub sum : ℕ
  pub parity : Bool

abbrev pub checksum : ℕ → InternetChecksum
checksum initial_sum = record { sum = initial_sum; parity = false }

-- What a byte adds: every other one is the high half of a word.
abbrev pub weight : Bool → ℕ → ℕ
weight parity byte = if parity then byte % 2 ^ 8 else byte % 2 ^ 8 * 2 ^ 8 % 2 ^ 16

unfoldable pub add : InternetChecksum → List ℕ → InternetChecksum
add c [] = c
add c (byte ∷ bytes) =
    add (record { sum = add32 c.sum (weight c.parity byte); parity = not c.parity }) bytes

-- The loop of `value`. Three rounds of fuel: the first leaves at most 2 ^ 17 - 2, the second at most
-- 2 ^ 16 - 1, and the third only tests.
unfoldable pub fold_loop : ℕ → ℕ → ℕ
fold_loop zero ret = ret
fold_loop (suc fuel) ret =
    let rest = fold_loop fuel ((ret / 2 ^ 16 + ret % 2 ^ 16) % 2 ^ 32) in
    if ltb (2 ^ 16 - 1) ret then rest else ret

-- `value`: the complement of a `uint32_t`, cut to a `uint16_t`.
unfoldable pub value : InternetChecksum → ℕ
value c = (2 ^ 32 - 1 - fold_loop 3 c.sum) % 2 ^ 16
