-- ===== src/Connection/Progress.antt =====
-- One round of a connection: the oldest outstanding segment is sent again when the timer rings, arrives,
-- and is acknowledged.
use cs144_2021_sponge.Prelude.{
  All, ℕ, suc, ◌+◌, ◌^◌, ◌≤◌, ◌<◌, ◌≡◌, refl, sym, ap, subst, ◌∙◌, List, [], ◌∷◌, ◌++◌, length,
  get_elem?, drop, arith, some, append_assoc,
}
use cs144_2021_sponge.ByteStream.{bytes_written, bytes_read, buffer_size}
use cs144_2021_sponge.ByteStream.Refine.{length-buffer}
use cs144_2021_sponge.Wrapping.{WrappingInt32, wrap}
use cs144_2021_sponge.Segment.{TcpSegment, length_in_sequence_space}
use cs144_2021_sponge.Config.{max_payload_size}
use cs144_2021_sponge.Reassembler.{StreamReassembler, read_output}
use cs144_2021_sponge.Reassembler.Invariant.{Inv, counters}
use cs144_2021_sponge.Receiver.{segment_received, stream_out, ackno}
use cs144_2021_sponge.Receiver.Laws.{acknowledged, ackno-wrap}
use cs144_2021_sponge.Sender.{ack_received}
use cs144_2021_sponge.Sender.Chain.{Chain-moved}
use cs144_2021_sponge.Sender.Sending.{read_exact}
use cs144_2021_sponge.Sender.Rings.{tick_resends}
use cs144_2021_sponge.Connection.{
  Net, ticks, transmits, delivers, answers, hears, reads, Run, stay, then_, transmit, read_some,
}
use cs144_2021_sponge.Connection.Drawn.{Good, next_below}
use cs144_2021_sponge.Connection.Kept.{tick-Ticked}
use cs144_2021_sponge.Connection.Receiving.{
  reached, reached-known, reached-sent, read_output-written,
}
use cs144_2021_sponge.Connection.Invariant.{Holds}
use cs144_2021_sponge.Connection.Steps.{Step-Holds}
use cs144_2021_sponge.Connection.Front.{takes_front, forgets_front}

pub Run-append : {s : List ℕ} {n m o : Net} → Run s n m → Run s m o → Run s n o
Run-append p stay = p
Run-append p (then_ q step) = then_ (Run-append p q) step

last_place :
    (xs : List TcpSegment) (z : TcpSegment) → (i : ℕ) × (get_elem? (xs ++ (z ∷ [])) i ≡ some z)
last_place [] z = (0, refl)
last_place (x ∷ xs) z = let (i, e) = last_place xs z in (suc i, e)

drop_everything : (xs : List ℕ) → drop (length xs) xs ≡ []
drop_everything [] = refl
drop_everything (x ∷ xs) = drop_everything xs

-- A reader that asks for all that is there.
pub read_all :
    {s : List ℕ} (r : StreamReassembler)
    → Inv s r
    → let q = (read_output r (buffer_size r.output)).0 in
      (bytes_read q.output ≡ bytes_written r.output) × (q.output.buffer ≡ [])
unfolding read_output
read_all r v =
    let f = v.filled in
    let e = (read_exact r.output (buffer_size r.output) (omega arith)).0 in
    (
      ap (λ b. b.read_bytes) e
          ∙ omega (
            arith,
            counters _ f,
            length-buffer (omega (arith, f.small)) f.represents,
            f.represents.within,
            f.inside,
            f.small,
          ),
      ap (λ b. b.buffer) e ∙ drop_everything r.output.buffer,
    )

module _ {s : List ℕ} {isn : WrappingInt32} (short : length s + 2 < 2 ^ 31)
    (word : isn.raw_value < 2 ^ 32) {cap : ℕ} (small : cap < 2 ^ 64) {room : ℕ}
    (ample : max_payload_size ≤ room) where
  -- The network carries the oldest segment, which waits at the end of what it was given, and the answer.
  module _ (n : Net) (v : Holds s isn cap room n) (seg : TcpSegment) (segs : List TcpSegment)
      (queue : n.sender.outstanding_segments ≡ seg ∷ segs) (i : ℕ)
      (carried : get_elem? n.wire i ≡ some seg) where
    read_net : Net
    read_net = read_some n (buffer_size (stream_out n.receiver))

    read_Holds : Holds s isn cap room read_net
    unfolding read_net
    read_Holds = Step-Holds short word small n v (reads (buffer_size (stream_out n.receiver)))

    told_net : Net
    unfolding read_net
    told_net = record read_net { receiver = segment_received read_net.receiver seg }

    told_Holds : Holds s isn cap room told_net
    unfolding read_net told_net
    told_Holds = Step-Holds short word small read_net read_Holds (delivers i seg carried)

    front-Good : Good s isn n.sender.next_seqno seg
    front-Good = (subst (All (Good s isn n.sender.next_seqno)) queue v.sends.drawn.queue).0

    front :
        (n.sender.receiver_ack + length_in_sequence_space seg ≤ reached s told_net.receiver)
        × (told_net.receiver.isn ≡ some isn)
    unfolding read_net told_net
    front =
        takes_front short word read_net.receiver read_Holds.hears
          (next_below s isn short word small v.sends.drawn)
          ((read_all n.receiver.reassembler v.hears.inv).0
            ∙ sym (read_output-written n.receiver v.hears (buffer_size (stream_out n.receiver))))
          (omega (arith, read_Holds.room_kept, ample)) seg front-Good n.sender.receiver_ack
          ((Chain-moved v.sends.drawn.isn_kept refl queue refl v.sends.chain).0) read_Holds.behind

    answer : ackno told_net.receiver ≡ some (wrap (acknowledged s told_net.receiver) isn)
    answer =
        ackno-wrap told_net.receiver isn told_Holds.hears.inv (omega (arith, short)) word front.1

    exchange : (m : Net) × Run s n m × (n.sender.receiver_ack < m.sender.receiver_ack)
    unfolding read_net told_net
    exchange =
        let a = wrap (acknowledged s told_net.receiver) isn in
        let m : Net = record told_net {
          sender = ack_received n.sender a 1;
          acks = (a, 1) ∷ n.acks;
        } in
        (
          m,
          then_
              (then_
                (then_ (then_ stay (reads (buffer_size (stream_out n.receiver))))
                  (delivers i seg carried))
                (answers a 1 answer (omega arith)))
              (hears 0 a 1 refl),
          forgets_front short word small n.sender v.sends seg segs queue a 1
              (acknowledged s told_net.receiver) refl
              (omega (
                arith,
                reached-sent told_net.receiver told_Holds.hears,
                reached-known s told_net.receiver front.1,
              ))
              (omega (arith, front.0, reached-known s told_net.receiver front.1)),
        )

  -- While something is outstanding, the clock, the network and the reader can go on so that the sender is
  -- told of more.
  pub round :
      (n : Net)
      → Holds s isn cap room n
      → (seg : TcpSegment) (segs : List TcpSegment) → n.sender.outstanding_segments ≡ seg ∷ segs
      → (m : Net) × Run s n m × (n.sender.receiver_ack < m.sender.receiver_ack)
  round n v seg segs queue =
      let (ms, _, x, e, out) = tick_resends n.sender seg segs v.rings queue in
      let t = tick-Ticked (λ _. Unit {0}) n.sender x ms e in
      let rung : Net = record n { sender = x } in
      let rung_Holds = Step-Holds short word small n v (ticks ms x e) in
      let sent_Holds = Step-Holds short word small rung rung_Holds transmits in
      let (i, last) = last_place (n.wire ++ n.sender.segments_out) seg in
      let carried : get_elem? (n.wire ++ x.segments_out) i ≡ some seg =
        ap (λ zs. get_elem? zs i)
          (ap (λ zs. n.wire ++ zs) out ∙ sym (append_assoc n.wire n.sender.segments_out (seg ∷ [])))
        ∙ last in
      let (m, run, more) =
        exchange (transmit rung) sent_Holds seg segs (t.queue ∙ queue) i carried in
      (m, Run-append (then_ (then_ stay (ticks ms x e)) transmits) run, omega (arith, more, t.ack))
