-- ===== src/Packet/Laws.antt =====
-- A segment that `serialize` of libsponge/tcp_helpers/tcp_segment.cc wrote is read back by `parse`.
use cs144_2021_sponge.Prelude.{
  ℕ, ◌+◌, ◌*◌, ◌^◌, ◌≤◌, ◌<◌, ◌≡◌, refl, ap, ap₂, ◌∙◌, subst, Bool, false, some, List, [], ◌++◌,
  length, length-append, arith,
}
use cs144_2021_sponge.Buffer.{buffer_of, str}
use cs144_2021_sponge.Buffer.Laws.{buffer_of-IsSound}
use cs144_2021_sponge.BufferList.{BufferList, append, append_loop, concatenate, concatenate_loop}
use cs144_2021_sponge.Checksum.{InternetChecksum, checksum, add, value}
use cs144_2021_sponge.Checksum.Laws.{
  word_sum, parity_after, add-append, word_sum-le, add_exact, value-value,
}
use cs144_2021_sponge.Segment.{TcpSegment}
use cs144_2021_sponge.Parser.{ParseResult, new}
use cs144_2021_sponge.Parser.Laws.{Shows}
use cs144_2021_sponge.Header.Layout.{IsWire, wire, flag_bits, serialize-wire}
use cs144_2021_sponge.Header.Laws as HeaderLaws
use cs144_2021_sponge.Packet.{parse, with_cksum, segment_checksum, list_of, serialize}

with_cksum-IsWire :
    (seg : TcpSegment) (c : ℕ) → IsWire seg.header → c < 2 ^ 16 → IsWire (with_cksum seg c)
with_cksum-IsWire seg c v h = record {
  sport = v.sport;
  dport = v.dport;
  seqno = v.seqno;
  ackno = v.ackno;
  long_enough = v.long_enough;
  doff = v.doff;
  win = v.win;
  cksum = h;
  uptr = v.uptr;
}

-- The checksum's own two bytes add the checksum to the sum of the header.
wire-word_sum :
    (seg : TcpSegment) (c : ℕ)
    → c < 2 ^ 16
    → (word_sum false (wire (with_cksum seg c)) ≡ word_sum false (wire (with_cksum seg 0)) + c)
      × (parity_after false (wire (with_cksum seg c))
          ≡ parity_after false (wire (with_cksum seg 0)))
unfolding wire word_sum parity_after flag_bits
wire-word_sum seg c h = (omega arith, refl)

concatenate_parts :
    (xs ys : List ℕ)
    → concatenate (append (append (record { buffers = [] }) (list_of xs)) (list_of ys)) ≡ xs ++ ys
unfolding append append_loop concatenate concatenate_loop str
concatenate_parts xs ys = refl

module _ (seg old : TcpSegment) (d : ℕ) (v : IsWire seg.header) (low : d < 2 ^ 23)
    (short : 4 * seg.header.doff + length seg.payload < 2 ^ 16) where
  abbrev c : ℕ
  c = segment_checksum seg d (wire (with_cksum seg 0))

  c-small : c < 2 ^ 16
  unfolding segment_checksum value
  c-small = omega arith

  abbrev out : BufferList
  out =
      append (append (record { buffers = [] }) (list_of (wire (with_cksum seg c))))
        (list_of seg.payload)

  serialized : serialize seg d ≡ some out
  unfolding serialize
  serialized =
      let zeroed =
        (serialize-wire (with_cksum seg 0) (with_cksum-IsWire seg 0 v (omega arith))).0 in
      let filled = (serialize-wire (with_cksum seg c) (with_cksum-IsWire seg c v c-small)).0 in
      rw (zeroed, filled) refl

  -- The sums on both sides.
  abbrev sent : InternetChecksum
  sent = add (add (checksum d) (wire (with_cksum seg 0))) seg.payload

  abbrev received : InternetChecksum
  received = add (add (checksum d) (wire (with_cksum seg c))) seg.payload

  header_sum :
      (k : ℕ)
      → k < 2 ^ 16
      → word_sum false (wire (with_cksum seg k)) ≤ 65280 * (4 * seg.header.doff)
  header_sum k h =
      subst (λ (n : ℕ). word_sum false (wire (with_cksum seg k)) ≤ 65280 * n)
        (serialize-wire (with_cksum seg k) (with_cksum-IsWire seg k v h)).1
        (word_sum-le false (wire (with_cksum seg k)))

  segment_sum :
      (k : ℕ)
      → k < 2 ^ 16
      → (add (add (checksum d) (wire (with_cksum seg k))) seg.payload).sum
        ≡ d
          + word_sum false (wire (with_cksum seg k))
          + word_sum (parity_after false (wire (with_cksum seg k))) seg.payload
  segment_sum k h =
      let bound = header_sum k h in
      let (sum, parity) = add_exact (wire (with_cksum seg k)) (checksum d) (omega (arith, bound)) in
      let before = add (checksum d) (wire (with_cksum seg k)) in
      let (whole, _) =
        add_exact seg.payload before
          (omega (arith, sum, bound, word_sum-le before.parity seg.payload)) in
      whole ∙ ap₂ (λ (n : ℕ) (b : Bool). n + word_sum b seg.payload) sum parity

  received_sum : (received.sum ≡ sent.sum + value sent) × (received.sum < 2 ^ 32)
  unfolding segment_checksum
  received_sum =
      let s0 = segment_sum 0 (omega arith) in
      let s1 = segment_sum c c-small in
      let (more, same) = wire-word_sum seg c c-small in
      let bound = header_sum c c-small in
      let tail = ap (λ (b : Bool). word_sum b seg.payload) same in
      (
        omega (arith, s0, s1, more, tail),
        omega (
          arith,
          s1,
          bound,
          word_sum-le (parity_after false (wire (with_cksum seg c))) seg.payload,
        ),
      )

  text_small : length (wire (with_cksum seg c) ++ seg.payload) < 2 ^ 64
  text_small =
      let size = (serialize-wire (with_cksum seg c) (with_cksum-IsWire seg c v c-small)).1 in
      omega (arith, length-append (wire (with_cksum seg c)) seg.payload, size)

  whole_value : value (add (checksum d) (wire (with_cksum seg c) ++ seg.payload)) ≡ 0
  whole_value =
      let (sum, small) = received_sum in
      ap value (add-append (wire (with_cksum seg c)) seg.payload (checksum d))
      ∙ (value-value sent received sum small).1

  parsed :
      parse old (buffer_of (wire (with_cksum seg c) ++ seg.payload)) d
      ≡ (record seg { header = with_cksum seg c }, ParseResult.no_error)
  unfolding parse str new
  parsed =
      let text = wire (with_cksum seg c) ++ seg.payload in
      let filled = with_cksum-IsWire seg c v c-small in
      let shows : Shows (new (buffer_of text)) text = record {
        sound = buffer_of-IsSound text text_small;
        shown = refl;
        fine = refl;
      } in
      let (p', e, after) =
        HeaderLaws.parse-serialize (with_cksum seg c) (wire (with_cksum seg c))
          (new (buffer_of text)) seg.payload filled (serialize-wire (with_cksum seg c) filled).0
          shows in
      rw (e, whole_value, after.fine, after.shown) refl

-- A segment whose header fields fit their places, with a data offset of 5 at least and fewer than 2 ^ 16
-- bytes in all, and a checksum of the lower layer below 2 ^ 23: `serialize` returns a list of buffers,
-- and `parse` of its text, into whatever segment, finds the checksum right and returns without error the
-- same segment, but for the checksum field that `serialize` has filled in.
pub parse_serialized :
    (seg old : TcpSegment) (d : ℕ)
    → IsWire seg.header
    → d < 2 ^ 23
    → 4 * seg.header.doff + length seg.payload < 2 ^ 16
    → (out : BufferList) × (c : ℕ) × (serialize seg d ≡ some out)
      × (parse old (buffer_of (concatenate out)) d
          ≡ (record seg { header = with_cksum seg c }, ParseResult.no_error))
parse_serialized seg old d v low short = (
  out seg old d v low short,
  c seg old d v low short,
  serialized seg old d v low short,
  rw (concatenate_parts (wire (with_cksum seg (c seg old d v low short))) seg.payload)
      (parsed seg old d v low short),
)
