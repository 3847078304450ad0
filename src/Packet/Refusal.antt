-- ===== src/Packet/Refusal.antt =====
-- What `TCPSegment::parse` of libsponge/tcp_helpers/tcp_segment.cc answers on bad input.
use cs144_2021_sponge.Prelude.{ℕ, ◌≤◌, ◌<◌, ◌≡◌, ◌≢◌, refl, none, false, ◌==◌, lt→ltb, arith}
use cs144_2021_sponge.Buffer.{Buffer, str, size}
use cs144_2021_sponge.Buffer.Laws.{IsSound}
use cs144_2021_sponge.Checksum.{checksum, add, value}
use cs144_2021_sponge.Segment.{TcpSegment}
use cs144_2021_sponge.Parser.{ParseResult, NetParser, new}
use cs144_2021_sponge.Header as Header
use cs144_2021_sponge.Header.{read_fields, skip_options}
use cs144_2021_sponge.Header.Errors.{parse_truncated}
use cs144_2021_sponge.Header.Enough.{read_fields_fine}
use cs144_2021_sponge.Packet.{parse}

-- A buffer that shows fewer than the 20 bytes of a header is refused: with PacketTooShort if its checksum
-- is right, and with BadChecksum if it is not.
pub truncated_refused :
    (seg : TcpSegment) (b : Buffer) (d : ℕ)
    → IsSound b
    → size b < 20
    → (value (add (checksum d) (str b)) ≡ 0 → (parse seg b d).1 ≡ ParseResult.packet_too_short)
      × (value (add (checksum d) (str b)) ≢ 0 → (parse seg b d).1 ≡ ParseResult.bad_checksum)
unfolding parse
truncated_refused seg b d v short = (
  λ right. rw right (parse_truncated b v short).0,
  λ wrong.
      let differs : (value (add (checksum d) (str b)) == 0) ≡ false = ground (arith, wrong) in
      rw differs refl,
)

header_refused :
    (p : NetParser)
    → (read_fields p).0.doff < 5
    → (Header.parse p).0 ≡ (read_fields p).0
      × ((Header.parse p).1 ≡ (read_fields p).1)
      × ((Header.parse p).2 ≡ ParseResult.header_too_short)
unfolding Header.parse skip_options
header_refused p short = rw (lt→ltb _ 5 short) (refl, refl, refl)

-- A buffer with a right checksum and 20 bytes or more whose data offset is below 5: the header's parse
-- answers HeaderTooShort, but the segment's parse drops that answer and returns NoError, with a header
-- that `serialize` refuses.
pub short_header_accepted :
    (seg : TcpSegment) (b : Buffer) (d : ℕ)
    → IsSound b
    → 20 ≤ size b
    → value (add (checksum d) (str b)) ≡ 0
    → (read_fields (new b)).0.doff < 5
    → ((Header.parse (new b)).2 ≡ ParseResult.header_too_short)
      × ((parse seg b d).1 ≡ ParseResult.no_error)
      × (Header.serialize (parse seg b d).0.header ≡ none)
unfolding parse Header.serialize
short_header_accepted seg b d v long right short =
    let (fields, kept, refused) = header_refused (new b) short in
    rw (right, fields, kept, lt→ltb _ 5 short) (refused, read_fields_fine b v long, refl)
