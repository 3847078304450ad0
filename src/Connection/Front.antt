-- ===== src/Connection/Front.antt =====
-- The oldest outstanding segment of a connection: a receiver whose reader keeps up takes it whole, and the
-- acknowledgment takes it off the sender's queue.
use cs144_2021_sponge.Prelude.{
  ℕ, ◌+◌, ◌-◌, ◌^◌, ◌≤◌, ◌<◌, ◌≡◌, refl, sym, ap, subst, ◌∙◌, ◌⊎◌, true, List, [], ◌∷◌, ◌++◌,
  length, distance, arith, inl, inr, some, none,
}
use cs144_2021_sponge.ByteStream.{bytes_written, bytes_read}
use cs144_2021_sponge.Wrapping.{WrappingInt32, wrap, unwrap, is_equal}
use cs144_2021_sponge.Wrapping.Laws.{unwrap-wrap, wrap-injective}
use cs144_2021_sponge.Segment.{TcpSegment, flag_length, length_in_sequence_space}
use cs144_2021_sponge.Config.{max_payload_size}
use cs144_2021_sponge.Reassembler.Invariant.{counters}
use cs144_2021_sponge.Reassembler.Contract.{first_missing}
use cs144_2021_sponge.Reassembler.Deliver.{Learns}
use cs144_2021_sponge.Receiver.{TcpReceiver, segment_received, stream_out}
use cs144_2021_sponge.Receiver.Laws.{segment_received-Learns}
use cs144_2021_sponge.Sender.{TcpSender, ack_received}
use cs144_2021_sponge.Sender.Chain.{Chain, Chain-occupied, Chain-moved, occupied}
use cs144_2021_sponge.Sender.Acks.{IsPending}
use cs144_2021_sponge.Connection.Kept.{ack_received-kept}
use cs144_2021_sponge.Sender.Taken.{ack_received-Takes}
use cs144_2021_sponge.Connection.Drawn.{Good, next_below}
use cs144_2021_sponge.Connection.Sending.{Sends, Sends-Tracks}
use cs144_2021_sponge.Connection.Receiving.{
  Hears, reached, reached-known, reached-none, reached-sent, sent, Learns-written,
}

wrap-equal :
    (x y : ℕ) (isn : WrappingInt32) → distance x y < 2 ^ 32 → wrap x isn ≡ wrap y isn → x ≡ y
unfolding is_equal
wrap-equal x y isn near e = wrap-injective x y isn near (ground (arith, ap (λ w. w.raw_value) e))

-- How many numbers a piece occupies.
Good-length :
    {s : List ℕ} {isn : WrappingInt32} {upto : ℕ} (seg : TcpSegment) (g : Good s isn upto seg)
    → (length_in_sequence_space seg
        ≡ length seg.payload + flag_length seg.header.syn + flag_length seg.header.fin)
unfolding length_in_sequence_space
Good-length seg g = ground (arith, g.small)

-- A queue from whose front something is popped or nothing.
occupied-suffix :
    (ps rest segs : List TcpSegment) → segs ≡ ps ++ rest → occupied rest ≤ occupied segs
unfolding occupied
occupied-suffix [] rest segs e = omega (arith, ap occupied e)
occupied-suffix (p ∷ ps) rest segs e =
    omega (arith, ap occupied e, occupied-suffix ps rest (ps ++ rest) refl)

split-occupied :
    (seg : TcpSegment) (segs popped rest : List TcpSegment)
    → seg ∷ segs ≡ popped ++ rest
    → (rest ≡ seg ∷ segs) ⊎ (occupied rest + length_in_sequence_space seg ≤ occupied (seg ∷ segs))
unfolding occupied
split-occupied seg segs [] rest e = inl (sym e)
split-occupied seg segs (p ∷ popped) rest e =
    let tail : segs ≡ popped ++ rest = cc in
    inr (omega (arith, occupied-suffix popped rest segs tail))

module _ {s : List ℕ} {isn : WrappingInt32} (short : length s + 2 < 2 ^ 31)
    (word : isn.raw_value < 2 ^ 32) where
  module _ {upto : ℕ} (r : TcpReceiver) (h : Hears s isn upto r) (limit : upto ≤ length s + 2)
      (drained : bytes_read (stream_out r) ≡ bytes_written (stream_out r))
      (room : max_payload_size ≤ r.reassembler.capacity) (seg : TcpSegment)
      (g : Good s isn upto seg) (ack : ℕ) (numbered : seg.header.seqno ≡ wrap ack isn)
      (behind : ack ≤ reached s r) where
    number_exact : ack ≡ g.index + 1 - flag_length seg.header.syn
    number_exact =
        wrap-equal ack (g.index + 1 - flag_length seg.header.syn) isn
          (omega (arith, behind, reached-sent r h, g.piece.inside)) (sym numbered ∙ g.numbered)

    knows : (r.isn ≡ some isn) ⊎ ((r.isn ≡ none) × (seg.header.syn ≡ true))
    knows = elim h.synced [
      | inl e ↦ inr (e, ground (arith, number_exact, behind, reached-none s r e))
      | inr p ↦ inl p.0
    ]

    -- The segment starts no later than the first missing byte, unless nothing is missing.
    starts : (g.index ≤ bytes_written (stream_out r)) ⊎ (bytes_written (stream_out r) ≡ length s)
    starts = elim h.synced [
      | inl e ↦ ground (arith, number_exact, behind, reached-none s r e, g.first)
      | inr p ↦ ground (arith, number_exact, behind, reached-known s r p.0, g.first)
    ]

    module _ (r' : TcpReceiver)
        (l : Learns s seg.payload g.index seg.header.fin r.reassembler r'.reassembler)
        (e : r'.isn ≡ some isn) where
      written : g.index + length seg.payload ≤ bytes_written (stream_out r')
      written = ground (
        arith,
        first_missing r'.reassembler l.inv,
        l.learned (bytes_written (stream_out r')),
        Learns-written r.reassembler r'.reassembler l,
        starts,
        drained,
        room,
        g.small,
        g.piece.inside,
      )

      taken : ack + length_in_sequence_space seg ≤ reached s r'
      taken = ground (
        arith,
        reached-known s r' e,
        written,
        Good-length seg g,
        number_exact,
        l.flagged,
        g.piece.last,
        g.first,
        counters s l.inv.filled,
        l.inv.filled.inside,
      )

    pub takes_front :
        (ack + length_in_sequence_space seg ≤ reached s (segment_received r seg))
        × ((segment_received r seg).isn ≡ some isn)
    takes_front =
        let (l, e) =
          segment_received-Learns word (omega (arith, short)) (sent r h short word seg g) knows
            h.inv in
        (taken _ l e, e)

  module _ {cap : ℕ} (small : cap < 2 ^ 64) (x : TcpSender) (v : Sends s isn cap x)
      (seg : TcpSegment) (segs : List TcpSegment) (queue : x.outstanding_segments ≡ seg ∷ segs)
      (a : WrappingInt32) (window m : ℕ) (wrapped : a ≡ wrap m isn) (sent_ : m ≤ x.next_seqno)
      (far : x.receiver_ack + length_in_sequence_space seg ≤ m) where
    pub forgets_front : x.receiver_ack < (ack_received x a window).receiver_ack
    forgets_front =
        let exact : unwrap a x.isn x.next_seqno ≡ m =
          rw (wrapped, v.drawn.isn_kept)
            (unwrap-wrap m isn x.next_seqno word
              (omega (arith, next_below s isn short word small v.drawn, sent_, short))
              (omega (arith, next_below s isn short word small v.drawn, sent_, short))) in
        let t =
          ack_received-Takes x (Sends-Tracks short word small v) a window
            (omega (arith, exact, far)) (omega (arith, exact, sent_)) in
        let y : TcpSender = ack_received x a window in
        let c : Chain x.isn x.receiver_ack (seg ∷ segs) x.next_seqno =
          Chain-moved refl refl queue refl v.chain in
        let before = Chain-occupied x.isn x.receiver_ack (seg ∷ segs) x.next_seqno c in
        let after =
          Chain-occupied y.isn y.receiver_ack y.outstanding_segments y.next_seqno t.tracks.chain in
        elim (split-occupied seg segs t.popped y.outstanding_segments (sym queue ∙ t.split)) [
          | inl same ↦
              let waits : m < y.receiver_ack + length_in_sequence_space seg =
                subst (λ (k : ℕ). k < y.receiver_ack + length_in_sequence_space seg) exact
                  (subst (λ zs. IsPending y.receiver_ack (unwrap a x.isn x.next_seqno) zs) same
                    t.pending) in
              absurd (
                omega (
                  arith,
                  waits,
                  far,
                  before,
                  after,
                  ap occupied same,
                  (ack_received-kept x a window).3,
                ))
          | inr less ↦ omega (arith, less, before, after, c.1, (ack_received-kept x a window).3)
        ]
