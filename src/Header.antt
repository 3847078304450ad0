-- ===== src/Header.antt =====
-- libsponge/tcp_helpers/tcp_header.cc: a TCP header from and to the bytes on the wire.
pub mod Layout
pub mod Laws
pub mod Errors
pub mod Enough
mod Tests
use cs144_2021_sponge.Prelude.{
  ℕ, ◌+◌, ◌-◌, ◌*◌, ◌/◌, ◌%◌, ◌^◌, Bool, ◌&&◌, Option, none, some, List, [], ◌++◌, ltb, ◌==◌,
  if◌then◌else◌, length, take, replicate,
}
use cs144_2021_sponge.Wrapping.{wrapping, is_equal}
use cs144_2021_sponge.Segment.{TcpHeader}
use cs144_2021_sponge.Parser.{
  ParseResult, NetParser, u32, u16, u8, remove_prefix, error, get_error, put_u32, put_u16, put_u8,
}

-- `TCPHeader::LENGTH`.
abbrev pub header_length : ℕ
header_length = 20

-- `static_cast<bool>(fl_b & 2 ^ k)`.
unfoldable pub has_bit : ℕ → ℕ → Bool
has_bit fl_b k = (fl_b / 2 ^ k % 2) == 1

-- The fields, as `parse` reads them. Every field is assigned, so that the header before the call does
-- not matter.
unfoldable pub read_fields : NetParser → TcpHeader × NetParser
read_fields p =
    let (p1, sport) = u16 p in
    let (p2, dport) = u16 p1 in
    let (p3, seqno) = u32 p2 in
    let (p4, ackno) = u32 p3 in
    let (p5, offset) = u8 p4 in
    let (p6, fl_b) = u8 p5 in
    let (p7, win) = u16 p6 in
    let (p8, cksum) = u16 p7 in
    let (p9, uptr) = u16 p8 in
    (
      record {
        sport = sport;
        dport = dport;
        seqno = wrapping seqno;
        ackno = wrapping ackno;
        doff = offset / 2 ^ 4;
        urg = has_bit fl_b 5;
        ack = has_bit fl_b 4;
        psh = has_bit fl_b 3;
        rst = has_bit fl_b 2;
        syn = has_bit fl_b 1;
        fin = has_bit fl_b 0;
        win = win;
        cksum = cksum;
        uptr = uptr;
      },
      p9,
    )

-- The rest of `parse`: the tests, and the options that are skipped.
unfoldable pub skip_options : TcpHeader → NetParser → NetParser × ParseResult
skip_options header p =
    let skipped = remove_prefix p (header.doff * 4 - header_length) in
    if ltb header.doff 5
    then (p, ParseResult.header_too_short)
    else if error skipped
    then (skipped, get_error skipped)
    else (skipped, ParseResult.no_error)

unfoldable pub parse : NetParser → TcpHeader × NetParser × ParseResult
parse p =
    let (header, p') = read_fields p in
    let (skipped, res) = skip_options header p' in (header, skipped, res)

abbrev pub bit : Bool → ℕ → ℕ
bit b value = if b then value else 0

-- The byte of flags. The values have no bit in common, so that `|` adds them.
unfoldable pub flag_byte : TcpHeader → ℕ
flag_byte h = bit h.urg 32 + bit h.ack 16 + bit h.psh 8 + bit h.rst 4 + bit h.syn 2 + bit h.fin 1

-- `string::resize`.
unfoldable pub resize : List ℕ → ℕ → List ℕ
resize s n = take n s ++ replicate (n - length s) 0

-- `serialize`. The exception for a header that is too short is `none`.
unfoldable pub serialize : TcpHeader → Option (List ℕ)
serialize h =
    let ports = put_u16 (put_u16 [] h.sport) h.dport in
    let numbers = put_u32 (put_u32 ports h.seqno.raw_value) h.ackno.raw_value in
    let offset = put_u8 numbers (h.doff * 2 ^ 4 % 2 ^ 8) in
    let flags = put_u8 offset (flag_byte h) in
    let ret = put_u16 (put_u16 (put_u16 flags h.win) h.cksum) h.uptr in
    if ltb h.doff 5 then none else some (resize ret (4 * h.doff))

abbrev bool_equal : Bool → Bool → Bool
bool_equal a b = bit a 1 == bit b 1

-- `operator==`, which leaves out the ports and the checksum.
unfoldable pub equals : TcpHeader → TcpHeader → Bool
equals h other =
    is_equal h.seqno other.seqno
    && is_equal h.ackno other.ackno
    && (h.doff == other.doff)
    && bool_equal h.urg other.urg
    && bool_equal h.ack other.ack
    && bool_equal h.psh other.psh
    && bool_equal h.rst other.rst
    && bool_equal h.syn other.syn
    && bool_equal h.fin other.fin
    && (h.win == other.win)
    && (h.uptr == other.uptr)
