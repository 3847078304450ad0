-- ===== src/Packet.antt =====
-- libsponge/tcp_helpers/tcp_segment.cc: a TCP segment from and to the bytes on the wire.
pub mod Laws
pub mod Refusal
mod Tests
use cs144_2021_sponge.Prelude.{
  ◌>>=◌, ℕ, Bool, Option, none, some, List, [], ◌∷◌, ◌==◌, if◌then◌else◌,
}
use cs144_2021_sponge.Buffer.{Buffer, buffer_of, str}
use cs144_2021_sponge.BufferList.{BufferList, append}
use cs144_2021_sponge.Checksum.{checksum, add, value}
use cs144_2021_sponge.Segment.{TcpHeader, TcpSegment}
use cs144_2021_sponge.Parser.{ParseResult, NetParser}
use cs144_2021_sponge.Parser as Parser
use cs144_2021_sponge.Header as Header

-- `parse`, on the segment as it was. The result of the header's `parse` is dropped, as in the code, and
-- the parser's own error is returned.
unfoldable pub parse : TcpSegment → Buffer → ℕ → TcpSegment × ParseResult
parse seg buffer datagram_layer_checksum =
    let check = add (checksum datagram_layer_checksum) (str buffer) in
    let (header, p, res) = Header.parse (Parser.new buffer) in
    if value check == 0
    then (record { header = header; payload = str p.buffer }, p.result)
    else (seg, ParseResult.bad_checksum)

abbrev pub with_cksum : TcpSegment → ℕ → TcpHeader
with_cksum seg cksum = record (seg.header) { cksum = cksum }

-- The checksum over the whole segment, with zero in its own place.
unfoldable pub segment_checksum : TcpSegment → ℕ → List ℕ → ℕ
segment_checksum seg datagram_layer_checksum text =
    value (add (add (checksum datagram_layer_checksum) text) seg.payload)

abbrev pub list_of : List ℕ → BufferList
list_of text = append (record { buffers = [] }) (record { buffers = buffer_of text ∷ [] })

-- `serialize`. The header's exception is passed on as `none`.
unfoldable pub serialize : TcpSegment → ℕ → Option BufferList
serialize seg datagram_layer_checksum = do
  text ← Header.serialize (with_cksum seg 0)
  out ← Header.serialize (with_cksum seg (segment_checksum seg datagram_layer_checksum text))
  some (append (append (record { buffers = [] }) (list_of out)) (list_of seg.payload))
