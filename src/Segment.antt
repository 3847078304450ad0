-- ===== src/Segment.antt =====
-- libsponge/tcp_helpers/tcp_header.hh and tcp_segment.hh: the fields of a segment. The payload is
-- the text that its `Buffer` shows.
use cs144_2021_sponge.Prelude.{ℕ, Bool, false, List, [], if◌then◌else◌, length, add64}
use cs144_2021_sponge.Wrapping.{WrappingInt32, wrapping}

-- `TCPHeader`.
pub record TcpHeader : Type 0 where
  pub sport : ℕ
  pub dport : ℕ
  pub seqno : WrappingInt32
  pub ackno : WrappingInt32
  pub doff : ℕ
  pub urg : Bool
  pub ack : Bool
  pub psh : Bool
  pub rst : Bool
  pub syn : Bool
  pub fin : Bool
  pub win : ℕ
  pub cksum : ℕ
  pub uptr : ℕ

-- The member initializers: 5 words of 4 bytes, and nothing set.
abbrev pub default_header : TcpHeader
default_header = record {
  sport = 0;
  dport = 0;
  seqno = wrapping 0;
  ackno = wrapping 0;
  doff = 5;
  urg = false;
  ack = false;
  psh = false;
  rst = false;
  syn = false;
  fin = false;
  win = 0;
  cksum = 0;
  uptr = 0;
}

-- `TCPSegment`.
pub record TcpSegment : Type 0 where
  pub header : TcpHeader
  pub payload : List ℕ

abbrev pub default_segment : TcpSegment
default_segment = record { header = default_header; payload = [] }

abbrev pub flag_length : Bool → ℕ
flag_length b = if b then 1 else 0

unfoldable pub length_in_sequence_space : TcpSegment → ℕ
length_in_sequence_space seg =
    add64 (add64 (length seg.payload) (flag_length seg.header.syn)) (flag_length seg.header.fin)
