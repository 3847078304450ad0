-- ===== src/Connection/Receiving.antt =====
-- The receiver's side of a connection (libsponge/tcp_receiver.cc): what it knows was sent, and what it
-- acknowledges never shrinks.
use cs144_2021_sponge.Prelude.{
  ℕ, ◌+◌, ◌-◌, ◌^◌, ◌≤◌, ◌<◌, ◌≡◌, refl, sym, ap, subst, ◌∙◌, ◌⊎◌, Bool, true, false, none, some,
  List, length, arith, Bool-cases, inl, inr,
}
use cs144_2021_sponge.ByteStream.{bytes_written, bytes_read, read, set_error}
use cs144_2021_sponge.Wrapping.{WrappingInt32}
use cs144_2021_sponge.Segment.{TcpSegment}
use cs144_2021_sponge.ByteStream as Stream
use cs144_2021_sponge.Reassembler as Reassembler
use cs144_2021_sponge.Reassembler.Bitmap.{get_or-replicate}
use cs144_2021_sponge.Reassembler.{StreamReassembler, read_output}
use cs144_2021_sponge.Reassembler.Invariant.{Inv, counters, new-Inv}
use cs144_2021_sponge.Reassembler.Known.{known}
use cs144_2021_sponge.Reassembler.Contract.{first_missing}
use cs144_2021_sponge.Reassembler.Deliver.{Learns}
use cs144_2021_sponge.Reassembler.Reading.{read_output-Reads}
use cs144_2021_sponge.Receiver.{TcpReceiver, new, segment_received, stream_out}
use cs144_2021_sponge.Receiver.Laws.{Sent, segment_received-Learns, acknowledged}
use cs144_2021_sponge.Connection.Drawn.{Good}

-- The first absolute sequence number that the receiver lacks, 0 before it has seen the SYN.
unfoldable pub reached : List ℕ → TcpReceiver → ℕ
reached s r = elim r.isn [ none ↦ 0 | some i ↦ acknowledged s r ]

-- A receiver of the stream `s`, whose numbers below `upto` were sent.
pub record Hears (s : List ℕ) (isn : WrappingInt32) (upto : ℕ) (r : TcpReceiver) : Type 0 where
  pub inv : Inv s r.reassembler
  pub learned : (j : ℕ) → known r.reassembler j ≡ true → j + 2 ≤ upto
  pub flagged : r.reassembler.eof_flag ≡ true → length s + 2 ≤ upto
  pub synced : (r.isn ≡ none) ⊎ ((r.isn ≡ some isn) × (1 ≤ upto))

pub reached-known :
    (s : List ℕ) (r : TcpReceiver) {i : WrappingInt32}
    → r.isn ≡ some i
    → reached s r ≡ acknowledged s r
unfolding reached
reached-known s r e = ground arith

pub reached-none : (s : List ℕ) (r : TcpReceiver) → r.isn ≡ none → reached s r ≡ 0
unfolding reached
reached-none s r e = ground arith

-- A receiver that learns more acknowledges no less.
pub Learns-written :
    {s text : List ℕ} {index : ℕ} {eof : Bool} (r r' : StreamReassembler)
    → Learns s text index eof r r'
    → bytes_written r.output ≤ bytes_written r'.output
Learns-written r r' l = ground (arith, first_missing r' l.inv, l.learned (bytes_written r'.output))

new-known : (capacity j : ℕ) → known (Reassembler.new capacity) j ≡ false
unfolding Reassembler.new Stream.new
new-known capacity j = ground (arith, get_or-replicate capacity j false)

module _ {s : List ℕ} {isn : WrappingInt32} where
  pub Hears-later : {m n : ℕ} {r : TcpReceiver} → m ≤ n → Hears s isn m r → Hears s isn n r
  Hears-later le h = record {
    inv = h.inv;
    learned = λ j k. omega (arith, h.learned j k);
    flagged = λ e. omega (arith, h.flagged e);
    synced = elim h.synced [ inl e ↦ inl e | inr p ↦ inr (p.0, omega (arith, p.1)) ];
  }

  pub new-Hears : (capacity : ℕ) → length s + capacity < 2 ^ 64 → Hears s isn 0 (new capacity)
  unfolding new Reassembler.new
  new-Hears capacity small = record {
    inv = new-Inv s capacity small;
    learned = λ j k. ground (arith, new-known capacity j, k);
    flagged = λ e. cc;
    synced = inl refl;
  }

  -- The receiver acknowledges only what was sent.
  pub reached-sent : {upto : ℕ} (r : TcpReceiver) → Hears s isn upto r → reached s r ≤ upto
  reached-sent r h = elim h.synced [
    | inl e ↦ ground (arith, reached-none s r e)
    | inr p ↦
        ground (
          arith,
          reached-known s r p.0,
          h.learned (bytes_written (stream_out r) - 1),
          h.flagged,
          p.1,
        )
  ]

  module _ {upto : ℕ} (r : TcpReceiver) (h : Hears s isn upto r) where
    module _ (short : length s + 2 < 2 ^ 31) (word : isn.raw_value < 2 ^ 32) (seg : TcpSegment)
        (g : Good s isn upto seg) where
      pub sent : Sent s isn r g.index seg
      sent = record {
        piece = g.piece;
        numbered = g.numbered;
        first = g.first;
        near = omega (arith, g.piece.inside, counters s h.inv.filled, h.inv.filled.inside, short);
      }

      Learns-Hears :
          {r' : TcpReceiver}
          → Learns s seg.payload g.index seg.header.fin r.reassembler r'.reassembler
          → r'.isn ≡ some isn
          → Hears s isn upto r'
      Learns-Hears {r'} l e = record {
        inv = l.inv;
        learned = λ j k. ground (arith, l.learned j, k, h.learned j, g.sent);
        flagged = λ f. ground (arith, l.flagged, f, h.flagged, g.piece.last, g.sent);
        synced = inr (e, omega (arith, g.sent));
      }

      Learns-reached :
          (r' : TcpReceiver)
          → Learns s seg.payload g.index seg.header.fin r.reassembler r'.reassembler
          → r'.isn ≡ some isn
          → reached s r ≤ reached s r'
      Learns-reached r' l e = elim h.synced [
        | inl n ↦ omega (arith, reached-none s r n)
        | inr p ↦ ground (
          arith,
          reached-known s r p.0,
          reached-known s r' e,
          Learns-written r.reassembler r'.reassembler l,
          l.flagged,
          counters s l.inv.filled,
          l.inv.filled.inside,
        )
      ]

      -- A SYN must come first.
      known_or_dropped :
          ((r.isn ≡ some isn) ⊎ ((r.isn ≡ none) × (seg.header.syn ≡ true)))
          ⊎ (segment_received r seg ≡ r)
      unfolding segment_received
      known_or_dropped = elim h.synced [
        | inr p ↦ inl (inl p.0)
        | inl n ↦ elim (Bool-cases seg.header.syn) [
          | inl y ↦ inl (inr (n, y))
          | inr z ↦ inr (ground (arith, n, z))
        ]
      ]

      pub segment_received-Hears :
          Hears s isn upto (segment_received r seg)
          × (reached s r ≤ reached s (segment_received r seg))
          × (bytes_read (stream_out (segment_received r seg)) ≡ bytes_read (stream_out r))
          × ((segment_received r seg).reassembler.capacity ≡ r.reassembler.capacity)
      segment_received-Hears = elim known_or_dropped [
        | inl knows ↦
            let (l, e) = segment_received-Learns word (omega (arith, short)) sent knows h.inv in
            (Learns-Hears l e, Learns-reached (segment_received r seg) l e, l.unread, l.room)
        | inr same ↦ (
          subst (Hears s isn upto) (sym same) h,
          omega (arith, ap (reached s) same),
          ap (λ q. bytes_read (stream_out q)) same,
          ap (λ q. q.reassembler.capacity) same,
        )
      ]

    pub read_output-written :
        (n : ℕ)
        → bytes_written (read_output r.reassembler n).0.output ≡ bytes_written (stream_out r)
    unfolding read_output read set_error
    read_output-written n = ground arith

    abbrev pub after_read : ℕ → TcpReceiver
    after_read n = record r { reassembler = (read_output r.reassembler n).0 }

    pub read_output-Hears :
        (n : ℕ) → Hears s isn upto (after_read n) × (reached s r ≤ reached s (after_read n))
    unfolding reached
    read_output-Hears n =
        let d = read_output-Reads r.reassembler h.inv n in
        (
          record {
            inv = d.inv;
            learned = λ j k. h.learned j (sym (d.same j) ∙ k);
            flagged = λ e. h.flagged (sym d.flag ∙ e);
            synced = h.synced;
          },
          ground (arith, d.flag, read_output-written n),
        )
