-- ===== src/Header/Errors.antt =====
-- `TCPHeader::parse` of libsponge/tcp_helpers/tcp_header.cc on a text that is too short.
use cs144_2021_sponge.Prelude.{
  ℕ, ◌-◌, ◌*◌, ◌^◌, ◌≤◌, ◌<◌, ◌≡◌, refl, ap, length, drop, length-drop, ltb, arith, ◌⊎◌, inl, inr,
  Bool-cases,
}
use cs144_2021_sponge.Buffer.{Buffer, str, size, advance}
use cs144_2021_sponge.Buffer.Laws.{IsSound, advance-drop}
use cs144_2021_sponge.Segment.{TcpHeader}
use cs144_2021_sponge.Parser.{
  ParseResult, NetParser, new, u32, u16, u8, remove_prefix, parse_int, check_size, set_error,
}
use cs144_2021_sponge.Header.{read_fields, skip_options, parse}

-- The parser has met the end of its text, or will before it has taken `n` bytes.
abbrev Short : NetParser → ℕ → Type 0
Short p n =
    (p.result ≡ ParseResult.packet_too_short)
    ⊎ ((p.result ≡ ParseResult.no_error) × IsSound p.buffer × (size p.buffer < n))

check_failed :
    (p : NetParser) (len : ℕ)
    → p.result ≡ ParseResult.packet_too_short
    → (check_size p len).result ≡ ParseResult.packet_too_short
unfolding check_size set_error
check_failed p len e = elim (Bool-cases (ltb (size p.buffer) len)) [
  | inl short ↦ rw short refl
  | inr fits ↦ rw fits e
]

int_failed :
    (len modulus : ℕ) (p : NetParser)
    → p.result ≡ ParseResult.packet_too_short
    → (parse_int len modulus p).0.result ≡ ParseResult.packet_too_short
unfolding parse_int
int_failed len modulus p e = rw (check_failed p len e) refl

smaller :
    (b : Buffer) (len n : ℕ)
    → str (advance b len) ≡ drop len (str b)
    → len ≤ n
    → len ≤ size b
    → size b < n
    → size (advance b len) < n - len
unfolding size
smaller b len n e le inside lt = omega (arith, ap length e, length-drop len (str b))

int-Short :
    (len modulus n : ℕ) (p : NetParser)
    → len ≤ n
    → Short p n
    → Short (parse_int len modulus p).0 (n - len)
unfolding parse_int check_size set_error
int-Short len modulus n p h (inl e) = inl (int_failed len modulus p e)
int-Short len modulus n p h (inr (fine, v, lt)) = elim (Bool-cases (ltb (size p.buffer) len)) [
  | inl short ↦ rw short (inl refl)
  | inr fits ↦
      let inside : len ≤ size p.buffer = ground (arith, fits) in
      let (shown, sound) = advance-drop p.buffer len v inside in
      rw (fits, fine) (inr (refl, sound, smaller p.buffer len n shown h inside lt))
]

u16-Short : (n : ℕ) (p : NetParser) → 2 ≤ n → Short p n → Short (u16 p).0 (n - 2)
unfolding u16
u16-Short n p h v = int-Short 2 (2 ^ 16) n p h v

u32-Short : (n : ℕ) (p : NetParser) → 4 ≤ n → Short p n → Short (u32 p).0 (n - 4)
unfolding u32
u32-Short n p h v = int-Short 4 (2 ^ 32) n p h v

u8-Short : (n : ℕ) (p : NetParser) → 1 ≤ n → Short p n → Short (u8 p).0 (n - 1)
unfolding u8
u8-Short n p h v = int-Short 1 (2 ^ 8) n p h v

-- With no byte to come the end has been met.
met_end : (p : NetParser) → Short p 0 → p.result ≡ ParseResult.packet_too_short
met_end p (inl e) = e
met_end p (inr (fine, v, lt)) = absurd (omega arith)

skip_failed :
    (p : NetParser) (n : ℕ)
    → p.result ≡ ParseResult.packet_too_short
    → (remove_prefix p n).result ≡ ParseResult.packet_too_short
unfolding remove_prefix
skip_failed p n e = let failed = check_failed p n e in rw failed refl

-- What a failed parse answers.
abbrev pub Refused : NetParser × ParseResult → Type 0
Refused (p, res) =
    (p.result ≡ ParseResult.packet_too_short)
    × ((res ≡ ParseResult.packet_too_short) ⊎ (res ≡ ParseResult.header_too_short))

read_fields-Short :
    (p : NetParser) → Short p 20 → (read_fields p).1.result ≡ ParseResult.packet_too_short
unfolding read_fields
read_fields-Short p s0 =
    let s2 = u16-Short 20 p (omega arith) s0 in
    let s4 = u16-Short 18 _ (omega arith) s2 in
    let s8 = u32-Short 16 _ (omega arith) s4 in
    let s12 = u32-Short 12 _ (omega arith) s8 in
    let s13 = u8-Short 8 _ (omega arith) s12 in
    let s14 = u8-Short 7 _ (omega arith) s13 in
    let s16 = u16-Short 6 _ (omega arith) s14 in
    let s18 = u16-Short 4 _ (omega arith) s16 in met_end _ (u16-Short 2 _ (omega arith) s18)

skip_options-Refused :
    (h : TcpHeader) (p : NetParser)
    → p.result ≡ ParseResult.packet_too_short
    → Refused (skip_options h p)
unfolding skip_options
skip_options-Refused h p e = elim (Bool-cases (ltb h.doff 5)) [
  | inl short ↦ rw short (e, inr refl)
  | inr long ↦ let failed = skip_failed p (h.doff * 4 - 20) e in rw (long, failed) (refl, inl refl)
]

-- On a buffer that shows fewer than the 20 bytes of a header, `parse` leaves the parser with the error
-- PacketTooShort, and returns that error or HeaderTooShort.
pub parse_truncated :
    (b : Buffer) → IsSound b → size b < 20 → Refused ((parse (new b)).1, (parse (new b)).2)
unfolding parse new
parse_truncated b v lt =
    skip_options-Refused (read_fields (new b)).0 (read_fields (new b)).1
      (read_fields-Short (new b) (inr (refl, v, lt)))
