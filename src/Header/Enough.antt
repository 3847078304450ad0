-- ===== src/Header/Enough.antt =====
-- The fields of a header in libsponge/tcp_helpers/tcp_header.cc are read without error where there are
-- 20 bytes.
use cs144_2021_sponge.Prelude.{ℕ, ◌-◌, ◌^◌, ◌≤◌, ◌≡◌, refl, ap, length, drop, length-drop, arith}
use cs144_2021_sponge.Buffer.{Buffer, str, size, advance}
use cs144_2021_sponge.Buffer.Laws.{IsSound, advance-drop}
use cs144_2021_sponge.Parser.{
  ParseResult, NetParser, new, u32, u16, u8, parse_int, check_size, set_error,
}
use cs144_2021_sponge.Parser.Laws.{not_less}
use cs144_2021_sponge.Header.{read_fields}

-- No error so far, and at least `n` bytes to come.
abbrev Long : NetParser → ℕ → Type 0
Long p n = (p.result ≡ ParseResult.no_error) × IsSound p.buffer × (n ≤ size p.buffer)

longer :
    (b : Buffer) (len n : ℕ)
    → str (advance b len) ≡ drop len (str b)
    → n ≤ size b
    → n - len ≤ size (advance b len)
unfolding size
longer b len n e le = omega (arith, ap length e, length-drop len (str b))

int-Long :
    (len modulus n : ℕ) (p : NetParser)
    → len ≤ n
    → Long p n
    → Long (parse_int len modulus p).0 (n - len)
unfolding parse_int check_size set_error
int-Long len modulus n p h (fine, v, le) =
    let (shown, sound) = advance-drop p.buffer len v (omega arith) in
    rw (not_less (size p.buffer) len (omega arith), fine)
      (refl, sound, longer p.buffer len n shown le)

u16-Long : (n : ℕ) (p : NetParser) → 2 ≤ n → Long p n → Long (u16 p).0 (n - 2)
unfolding u16
u16-Long n p h v = int-Long 2 (2 ^ 16) n p h v

u32-Long : (n : ℕ) (p : NetParser) → 4 ≤ n → Long p n → Long (u32 p).0 (n - 4)
unfolding u32
u32-Long n p h v = int-Long 4 (2 ^ 32) n p h v

u8-Long : (n : ℕ) (p : NetParser) → 1 ≤ n → Long p n → Long (u8 p).0 (n - 1)
unfolding u8
u8-Long n p h v = int-Long 1 (2 ^ 8) n p h v

fields_fine : (p : NetParser) → Long p 20 → (read_fields p).1.result ≡ ParseResult.no_error
unfolding read_fields
fields_fine p s0 =
    let s2 = u16-Long 20 p (omega arith) s0 in
    let s4 = u16-Long 18 _ (omega arith) s2 in
    let s8 = u32-Long 16 _ (omega arith) s4 in
    let s12 = u32-Long 12 _ (omega arith) s8 in
    let s13 = u8-Long 8 _ (omega arith) s12 in
    let s14 = u8-Long 7 _ (omega arith) s13 in
    let s16 = u16-Long 6 _ (omega arith) s14 in
    let s18 = u16-Long 4 _ (omega arith) s16 in (u16-Long 2 _ (omega arith) s18).0

pub read_fields_fine :
    (b : Buffer) → IsSound b → 20 ≤ size b → (read_fields (new b)).1.result ≡ ParseResult.no_error
unfolding new
read_fields_fine b v le = fields_fine (new b) (refl, v, le)
