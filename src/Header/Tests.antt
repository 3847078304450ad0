-- ===== src/Header/Tests.antt =====
-- A SYN header on the wire, and the instances of the header's theorems.
use cs144_2021_sponge.Prelude.{◌*◌, ◌≡◌, refl, true, some, [], ◌∷◌, ◌++◌, length, arith}
use cs144_2021_sponge.Buffer.{buffer_of, str}
use cs144_2021_sponge.Buffer.Laws.{buffer_of-IsSound}
use cs144_2021_sponge.Wrapping.{wrapping, is_equal}
use cs144_2021_sponge.Segment.{TcpHeader, default_header}
use cs144_2021_sponge.Parser.{ParseResult, NetParser}
use cs144_2021_sponge.Parser.Laws.{Shows}
use cs144_2021_sponge.Header.{parse, serialize, equals}
use cs144_2021_sponge.Header.Layout.{IsWire, wire, flag_bits, binary, digit, serialize-wire}
use cs144_2021_sponge.Header.Laws.{parse-serialize}

-- One word of options.
abbrev syn : TcpHeader
syn = record default_header {
  dport = 80;
  seqno = wrapping 0x0a0b0c0d;
  doff = 6;
  syn = true;
  win = 1024;
}

wire-syn :
    wire syn
    ≡ 0 ∷ 0 ∷ 0 ∷ 80 ∷ 10 ∷ 11 ∷ 12 ∷ 13 ∷ 0 ∷ 0 ∷ 0 ∷ 0 ∷ 0x60 ∷ 2 ∷ 4 ∷ 0 ∷ 0 ∷ 0 ∷ 0 ∷ 0 ∷ 0 ∷ 0
      ∷ 0 ∷ 0 ∷ []
unfolding wire flag_bits binary digit
wire-syn = refl

-- The comparison does not look at the ports.
equals-syn : equals syn (record syn { dport = 443 }) ≡ true
unfolding equals is_equal
equals-syn = refl

syn-IsWire : IsWire syn
syn-IsWire = record {
  sport = omega arith;
  dport = omega arith;
  seqno = omega arith;
  ackno = omega arith;
  long_enough = omega arith;
  doff = omega arith;
  win = omega arith;
  cksum = omega arith;
  uptr = omega arith;
}

serialize-wire_example : (serialize syn ≡ some (wire syn)) × (length (wire syn) ≡ 4 * 6)
serialize-wire_example = serialize-wire syn syn-IsWire

abbrev reader : NetParser
reader = record { buffer = buffer_of (wire syn ++ (5 ∷ [])); result = ParseResult.no_error }

reader-Shows : Shows reader (wire syn ++ (5 ∷ []))
unfolding str wire
reader-Shows = record {
  sound = buffer_of-IsSound (wire syn ++ (5 ∷ [])) (omega arith);
  shown = refl;
  fine = refl;
}

parse-serialize_example :
    (p' : NetParser) × (parse reader ≡ (syn, p', ParseResult.no_error)) × Shows p' (5 ∷ [])
parse-serialize_example =
    parse-serialize syn (wire syn) reader (5 ∷ []) syn-IsWire (serialize-wire syn syn-IsWire).0
      reader-Shows
