-- ===== src/Parser.antt =====
-- libsponge/util/parser.hh and parser.cc: integers in network byte order, read from a buffer and
-- appended to a text.
pub mod Laws
mod Tests
use cs144_2021_sponge.Prelude.{
  ℕ, zero, suc, ◌+◌, ◌-◌, ◌*◌, ◌/◌, ◌%◌, ◌^◌, Bool, true, false, not, List, [], ◌∷◌, ◌++◌, ltb,
  if◌then◌else◌, get_or,
}
use cs144_2021_sponge.Buffer.{Buffer, str, size, advance}

pub data ParseResult : Type 0 where
  no_error bad_checksum packet_too_short wrong_ip_version header_too_short : ParseResult
  truncated_packet unsupported : ParseResult

abbrev pub is_error : ParseResult → Bool
is_error ParseResult.no_error = false
is_error r = true

-- The members of `NetParser`; `result` is `_error`.
pub record NetParser : Type 0 where
  pub buffer : Buffer
  pub result : ParseResult

unfoldable pub new : Buffer → NetParser
new buffer = record { buffer = buffer; result = ParseResult.no_error }

abbrev pub get_error : NetParser → ParseResult
get_error p = p.result

unfoldable pub set_error : NetParser → ParseResult → NetParser
set_error p res = record p { result = res }

abbrev pub error : NetParser → Bool
error p = is_error (get_error p)

unfoldable pub check_size : NetParser → ℕ → NetParser
unfolding set_error
check_size p size' =
    if ltb (size p.buffer) size' then set_error p ParseResult.packet_too_short else p

-- The loop of `_parse_int` in a type of `modulus` values: the rounds left, the index and `ret`. The
-- size has been checked, so that `at` finds a byte.
unfoldable pub parse_loop : ℕ → ℕ → (modulus : ℕ) → List ℕ → ℕ → ℕ
parse_loop zero i modulus text ret = ret
parse_loop (suc rounds) i modulus text ret =
    parse_loop rounds (i + 1) modulus text
      ((ret * 2 ^ 8 % modulus + get_or text i 0 % 2 ^ 8) % modulus)

-- `_parse_int` for a type of `len` bytes. After the test `remove_prefix` of the buffer cannot throw.
unfoldable pub parse_int : (len modulus : ℕ) → NetParser → NetParser × ℕ
parse_int len modulus p =
    let checked = check_size p len in
    if error checked then (checked, 0) else (
      record checked { buffer = advance checked.buffer len },
      parse_loop len 0 modulus (str checked.buffer) 0,
    )

unfoldable pub u32 : NetParser → NetParser × ℕ
u32 p = parse_int 4 (2 ^ 32) p

unfoldable pub u16 : NetParser → NetParser × ℕ
u16 p = parse_int 2 (2 ^ 16) p

unfoldable pub u8 : NetParser → NetParser × ℕ
u8 p = parse_int 1 (2 ^ 8) p

unfoldable pub remove_prefix : NetParser → ℕ → NetParser
remove_prefix p n =
    let checked = check_size p n in
    if error checked then checked else record checked { buffer = advance checked.buffer n }

-- The loop of `_unparse_int` for a type of `len` bytes: the rounds left and the index.
unfoldable pub unparse_loop : ℕ → ℕ → (len : ℕ) → List ℕ → ℕ → List ℕ
unparse_loop zero i len s val = s
unparse_loop (suc rounds) i len s val =
    unparse_loop rounds (i + 1) len (s ++ (val / 2 ^ ((len - i - 1) * 8) % 2 ^ 8 ∷ [])) val

unfoldable pub unparse_int : (len : ℕ) → List ℕ → ℕ → List ℕ
unparse_int len s val = unparse_loop len 0 len s val

unfoldable pub put_u32 : List ℕ → ℕ → List ℕ
put_u32 s val = unparse_int 4 s val

unfoldable pub put_u16 : List ℕ → ℕ → List ℕ
put_u16 s val = unparse_int 2 s val

unfoldable pub put_u8 : List ℕ → ℕ → List ℕ
put_u8 s val = unparse_int 1 s val
