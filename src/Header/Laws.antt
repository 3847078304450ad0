-- ===== src/Header/Laws.antt =====
-- `TCPHeader::parse` of libsponge/tcp_helpers/tcp_header.cc reads back what `serialize` writes.
use cs144_2021_sponge.Prelude.{
  ℕ, ◌+◌, ◌-◌, ◌*◌, ◌/◌, ◌^◌, ◌≤◌, ◌≡◌, refl, sym, ◌∙◌, Bool, true, false, some, List, ◌++◌, ltb,
  length-replicate, replicate, arith, ◌==◌, subst, ◌<◌,
}
use mathlib.Core.Option.{some-injective}
use cs144_2021_sponge.Segment.{TcpHeader, flag_length}
use cs144_2021_sponge.Parser.{ParseResult, NetParser, remove_prefix}
use cs144_2021_sponge.Parser.Laws.{
  Shows, next, u8-bytes1, u16-bytes2, u32-bytes4, remove_bytes, not_less,
}
use cs144_2021_sponge.Header.{has_bit, read_fields, skip_options, parse, bit, flag_byte, serialize}
use cs144_2021_sponge.Header.Layout.{
  IsWire, wire, flag_bits, flag_bits-flag_byte, weigh, flag_length-le, flag_byte-small,
  serialize-wire,
}

flag_one : (b : Bool) (n : ℕ) → n ≡ flag_length b → (n == 1) ≡ b
flag_one true n e = rw e refl
flag_one false n e = rw e refl

-- The six tests of `parse` find the six flags.
abbrev Flags : TcpHeader → ℕ → Type 0
Flags h fl_b =
    (has_bit fl_b 5 ≡ h.urg)
    × (has_bit fl_b 4 ≡ h.ack)
    × (has_bit fl_b 3 ≡ h.psh)
    × (has_bit fl_b 2 ≡ h.rst)
    × (has_bit fl_b 1 ≡ h.syn)
    × (has_bit fl_b 0 ≡ h.fin)

flag_byte-Flags : (h : TcpHeader) → Flags h (flag_byte h)
unfolding has_bit flag_byte
flag_byte-Flags h =
    let sum : bit h.urg 32 + bit h.ack 16 + bit h.psh 8 + bit h.rst 4 + bit h.syn 2 + bit h.fin 1
        ≡ flag_length h.urg * 32
          + flag_length h.ack * 16
          + flag_length h.psh * 8
          + flag_length h.rst * 4
          + flag_length h.syn * 2
          + flag_length h.fin =
      omega (
        arith,
        weigh h.urg 32,
        weigh h.ack 16,
        weigh h.psh 8,
        weigh h.rst 4,
        weigh h.syn 2,
        weigh h.fin 1,
      ) in
    let bounds : (flag_length h.urg ≤ 1)
        × (flag_length h.ack ≤ 1)
        × (flag_length h.psh ≤ 1)
        × (flag_length h.rst ≤ 1)
        × (flag_length h.syn ≤ 1)
        × (flag_length h.fin ≤ 1) =
      (
        flag_length-le h.urg,
        flag_length-le h.ack,
        flag_length-le h.psh,
        flag_length-le h.rst,
        flag_length-le h.syn,
        flag_length-le h.fin,
      ) in
    (
      flag_one h.urg _ (omega (arith, sum, bounds)),
      flag_one h.ack _ (omega (arith, sum, bounds)),
      flag_one h.psh _ (omega (arith, sum, bounds)),
      flag_one h.rst _ (omega (arith, sum, bounds)),
      flag_one h.syn _ (omega (arith, sum, bounds)),
      flag_one h.fin _ (omega (arith, sum, bounds)),
    )

module _ (h : TcpHeader) (p : NetParser) (rest : List ℕ) (v : IsWire h) where
  abbrev pad : List ℕ
  pad = replicate (4 * h.doff - 20) 0

  -- The parser that has read the nine fields.
  abbrev p2 : NetParser
  p2 = next p 2

  abbrev p4 : NetParser
  p4 = next p2 2

  abbrev p8 : NetParser
  p8 = next p4 4

  abbrev p12 : NetParser
  p12 = next p8 4

  abbrev p13 : NetParser
  p13 = next p12 1

  abbrev p14 : NetParser
  p14 = next p13 1

  abbrev p16 : NetParser
  p16 = next p14 2

  abbrev p18 : NetParser
  p18 = next p16 2

  abbrev p20 : NetParser
  p20 = next p18 2

  -- What has been read once all options are skipped.
  abbrev past : NetParser
  past = next p20 (h.doff * 4 - 20)

  remove_pad :
      Shows p20 (pad ++ rest) → (remove_prefix p20 (h.doff * 4 - 20) ≡ past) × Shows past rest
  remove_pad shows =
      remove_bytes p20 rest (h.doff * 4 - 20) pad (length-replicate {A = ℕ} _ 0 ∙ omega arith) shows

  read_fields-wire : Shows p (wire h ++ rest) → (read_fields p ≡ (h, p20)) × Shows p20 (pad ++ rest)
  unfolding read_fields wire
  read_fields-wire shows =
      let (e2, s2) = u16-bytes2 p _ h.sport v.sport shows in
      let (e4, s4) = u16-bytes2 p2 _ h.dport v.dport s2 in
      let (e8, s8) = u32-bytes4 p4 _ h.seqno.raw_value v.seqno s4 in
      let (e12, s12) = u32-bytes4 p8 _ h.ackno.raw_value v.ackno s8 in
      let (e13, s13) = u8-bytes1 p12 _ (h.doff * 16) (omega (arith, v.doff)) s12 in
      let small_byte : flag_bits h < 2 ^ 8 =
        omega (arith, flag_bits-flag_byte h, flag_byte-small h) in
      let (e14, s14) = u8-bytes1 p13 _ (flag_bits h) small_byte s13 in
      let (e16, s16) = u16-bytes2 p14 _ h.win v.win s14 in
      let (e18, s18) = u16-bytes2 p16 _ h.cksum v.cksum s16 in
      let (e20, s20) = u16-bytes2 p18 _ h.uptr v.uptr s18 in
      let doff : h.doff * 16 / 2 ^ 4 ≡ h.doff = omega arith in
      let f = subst (Flags h) (sym (flag_bits-flag_byte h)) (flag_byte-Flags h) in
      (rw (e2, e4, e8, e12, e13, e14, e16, e18, e20, doff, f.0, f.1, f.2, f.3, f.4, f.5) refl, s20)

  skip_options-pad :
      Shows p20 (pad ++ rest)
      → (skip_options h p20 ≡ (past, ParseResult.no_error)) × Shows past rest
  unfolding skip_options
  skip_options-pad shows =
      let (e, s) = remove_pad shows in
      let long : ltb h.doff 5 ≡ false = not_less h.doff 5 v.long_enough in
      (rw (e, long, shows.fine) refl, s)

  parse-wire :
      Shows p (wire h ++ rest) → (parse p ≡ (h, past, ParseResult.no_error)) × Shows past rest
  unfolding parse
  parse-wire shows =
      let (read, shown) = read_fields-wire shows in
      let (skipped, after) = skip_options-pad shown in (rw (read, skipped) refl, after)

-- A header whose fields fit their places and whose data offset is at least 5: a parser without error
-- whose buffer shows what `serialize` returned, and after it anything, gets the same header back from
-- `parse`, without error, and shows what follows the header and its padding.
pub parse-serialize :
    (h : TcpHeader) (text : List ℕ) (p : NetParser) (rest : List ℕ)
    → IsWire h
    → serialize h ≡ some text
    → Shows p (text ++ rest)
    → (p' : NetParser) × (parse p ≡ (h, p', ParseResult.no_error)) × Shows p' rest
parse-serialize h text p rest v e shows =
    let same : text ≡ wire h = some-injective text (wire h) (sym e ∙ (serialize-wire h v).0) in
    let (read, after) = parse-wire h p rest v (subst (λ t. Shows p (t ++ rest)) same shows) in
    (past h p rest v, read, after)
