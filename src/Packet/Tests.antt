-- ===== src/Packet/Tests.antt =====
-- A small segment on the wire, and the instances of its theorems.
use cs144_2021_sponge.Prelude.{ℕ, ◌≡◌, refl, true, some, none, List, [], ◌∷◌, arith, ◌≢◌}
use cs144_2021_sponge.Checksum.{checksum, add, value}
use cs144_2021_sponge.Buffer.{Buffer, buffer_of, str, size, advance, reset_if_done}
use cs144_2021_sponge.Buffer.Laws.{buffer_of-IsSound}
use cs144_2021_sponge.BufferList.{BufferList, concatenate}
use cs144_2021_sponge.Checksum.{add, value, fold_loop}
use cs144_2021_sponge.Wrapping.{wrapping}
use cs144_2021_sponge.Segment.{TcpSegment, default_header, default_segment}
use cs144_2021_sponge.Parser.{
  ParseResult, new, u32, u16, u8, parse_int, parse_loop, check_size, set_error,
}
use cs144_2021_sponge.Header.{read_fields}
use cs144_2021_sponge.Header as Header
use cs144_2021_sponge.Header.Layout.{IsWire}
use cs144_2021_sponge.Packet.{parse, serialize, with_cksum}
use cs144_2021_sponge.Packet.Laws.{parse_serialized}
use cs144_2021_sponge.Packet.Refusal.{truncated_refused, short_header_accepted}

abbrev greeting : TcpSegment
greeting = record {
  header = record default_header { sport = 5000; dport = 80; seqno = wrapping 77; ack = true };
  payload = 104 ∷ 105 ∷ 33 ∷ [];
}

greeting-IsWire : IsWire greeting.header
greeting-IsWire = record {
  sport = omega arith;
  dport = omega arith;
  seqno = omega arith;
  ackno = omega arith;
  long_enough = omega arith;
  doff = omega arith;
  win = omega arith;
  cksum = omega arith;
  uptr = omega arith;
}

parse_serialized_example :
    (out : BufferList) × (c : ℕ) × (serialize greeting 6000 ≡ some out)
    × (parse default_segment (buffer_of (concatenate out)) 6000
        ≡ (record greeting { header = with_cksum greeting c }, ParseResult.no_error))
parse_serialized_example =
    parse_serialized greeting default_segment 6000 greeting-IsWire (omega arith) (omega arith)

abbrev stub : Buffer
stub = buffer_of (1 ∷ 2 ∷ 3 ∷ [])

truncated_refused_example :
    (value (add (checksum 0) (str stub)) ≡ 0
      → (parse default_segment stub 0).1 ≡ ParseResult.packet_too_short)
    × (value (add (checksum 0) (str stub)) ≢ 0
        → (parse default_segment stub 0).1 ≡ ParseResult.bad_checksum)
unfolding size str
truncated_refused_example =
    truncated_refused default_segment stub 0 (buffer_of-IsSound (1 ∷ 2 ∷ 3 ∷ []) (omega arith))
      (omega arith)

-- Twenty bytes with data offset 0 and the checksum 0xffff.
abbrev crooked_text : List ℕ
crooked_text =
    0 ∷ 0 ∷ 0 ∷ 0 ∷ 0 ∷ 0 ∷ 0 ∷ 0 ∷ 0 ∷ 0 ∷ 0 ∷ 0 ∷ 0 ∷ 0 ∷ 0 ∷ 0 ∷ 255 ∷ 255 ∷ 0 ∷ 0 ∷ []

abbrev crooked : Buffer
crooked = buffer_of crooked_text

short_header_accepted_example :
    ((Header.parse (new crooked)).2 ≡ ParseResult.header_too_short)
    × ((parse default_segment crooked 0).1 ≡ ParseResult.no_error)
    × (Header.serialize (parse default_segment crooked 0).0.header ≡ none)
unfolding size str value add fold_loop read_fields new u16 u32 u8 parse_int parse_loop check_size
    set_error advance reset_if_done
short_header_accepted_example =
    short_header_accepted default_segment crooked 0 (buffer_of-IsSound crooked_text (omega arith))
      (omega arith) refl (omega arith)
