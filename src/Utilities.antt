-- ===== src/Utilities.antt =====
-- libsponge/util/util.cc: SystemCall and hexdump. Texts are lists of character codes; what hexdump prints
-- is its result. InternetChecksum is in Checksum.

pub mod Bytes
pub mod Rows
pub mod Picture
pub mod Layout
mod Tests
use cs144_2021_sponge.Prelude.{
  ℕ, zero, suc, ◌+◌, ◌-◌, ◌*◌, ◌/◌, ◌%◌, Bool, true, false, ◌&&◌, ◌||◌, Option, none, some, List,
  [], ◌∷◌, ◌++◌, ltb, leb, ◌==◌, if◌then◌else◌, length, take, drop, replicate,
}

-- An `int`: `n`, or `- n - 1`.
pub data ℤ : Type 0 where
  pos negsuc : ℕ → ℤ

-- `SystemCall`, with `errno` as an argument. `none` stands for the exception.
unfoldable pub system_call : (errno : ℕ) → ℤ → (errno_mask : ℕ) → Option ℤ
system_call errno (pos n) errno_mask = some (pos n)
system_call errno (negsuc n) errno_mask = if errno == errno_mask then some (negsuc n) else none

-- The digits of `n` in base 16, at most `fuel` of them; and with zeros in front, to a width.
unfoldable pub hex_digit : ℕ → ℕ
hex_digit d = if ltb d 10 then 48 + d else 87 + d

unfoldable pub hex : ℕ → ℕ → List ℕ
hex zero n = []
hex (suc fuel) n =
    let rest = hex fuel (n / 16) in
    if ltb n 16 then hex_digit n ∷ [] else rest ++ (hex_digit (n % 16) ∷ [])

unfoldable pub padded : ℕ → ℕ → List ℕ
padded width n = replicate (width - length (hex 8 n)) 48 ++ hex 8 n

-- `isprint` in the C locale, and the character that stands for a byte.
unfoldable pub shown_char : ℕ → ℕ
shown_char byte = if leb 32 byte && leb byte 126 then byte else 46

-- The variables of the loop: `pchars` is its text and the position at which the next character goes.
pub record Dump : Type 0 where
  pub printed : ℕ
  pub pchars : List ℕ
  pub position : ℕ
  pub out : List ℕ

-- `stringstream(" ")` and `str(" ")` leave the position at the start, so that the first character takes
-- the place of the space.
abbrev pub fresh_pchars : List ℕ
fresh_pchars = 32 ∷ []

abbrev pub start : Dump
start = record { printed = 0; pchars = fresh_pchars; position = 0; out = [] }

unfoldable pub put : Dump → ℕ → Dump
put d c = record d {
  pchars = take d.position d.pchars ++ (c ∷ drop (d.position + 1) d.pchars);
  position = d.position + 1;
}

abbrev pub four_spaces : List ℕ
four_spaces = replicate 4 32

unfoldable pub end_line : Dump → Dump
end_line d = if d.printed == 0 then d else record d {
  out = d.out ++ (four_spaces ++ (d.pchars ++ (10 ∷ [])));
  pchars = fresh_pchars;
  position = 0;
}

-- What comes before a line: the indentation, the number of its first byte, a colon and four spaces.
unfoldable pub line_head : ℕ → ℕ → List ℕ
line_head indent printed = replicate indent 32 ++ (padded 8 printed ++ (58 ∷ four_spaces))

unfoldable pub before_byte : ℕ → Dump → Dump
before_byte indent d =
    let ended = end_line d in
    if d.printed % 16 == 0
    then record ended { out = ended.out ++ line_head indent d.printed }
    else if d.printed % 2 == 0
    then record d { out = d.out ++ (32 ∷ []) }
    else d

unfoldable pub dump_byte : ℕ → Dump → ℕ → Dump
dump_byte indent d byte =
    let b = before_byte indent d in
    let written = put (record b { out = b.out ++ padded 2 byte }) (shown_char byte) in
    record written { printed = d.printed + 1 }

unfoldable pub dump_loop : ℕ → Dump → List ℕ → Dump
dump_loop indent d [] = d
dump_loop indent d (byte ∷ bytes) = dump_loop indent (dump_byte indent d byte) bytes

unfoldable pub finish : Dump → List ℕ
finish d =
    let print_rem = (16 - d.printed % 16) % 16 in
    d.out ++ (replicate (2 * print_rem + print_rem / 2 + 4) 32 ++ (d.pchars ++ (10 ∷ 10 ∷ [])))

-- `hexdump` of fewer than 2 ^ 31 bytes.
unfoldable pub hexdump : List ℕ → ℕ → List ℕ
hexdump data_bytes indent = finish (dump_loop indent start data_bytes)
