-- ===== src/Connection/Queues.antt =====
-- The queues of the sender of a connection (libsponge/tcp_sender.cc), as segments are handed over, sent
-- again and acknowledged.
use cs144_2021_sponge.Prelude.{
  ℕ, ◌+◌, ◌-◌, ◌^◌, ◌≤◌, ◌<◌, ◌≡◌, refl, sym, ap₂, subst, ◌∙◌, false, ◌||◌, some, List, [], length,
  arith, ltb, All, All-append, All-suffix, Bool-cases, inl, inr,
}
use cs144_2021_sponge.ByteStream.Refine.{Represents}
use cs144_2021_sponge.Wrapping.{WrappingInt32, wrap, unwrap}
use cs144_2021_sponge.Segment.{default_header}
use cs144_2021_sponge.Sender.{
  TcpSender, ack_received, tick, send_empty_segment, next_seqno_relative,
}
use cs144_2021_sponge.Sender.Chain.{Chain, Chain-moved}
use cs144_2021_sponge.Sender.Acks.{ack_received_ignored}
use cs144_2021_sponge.Sender.Taken.{ack_received-Takes}
use cs144_2021_sponge.Connection.Drawn.{Good}
use cs144_2021_sponge.Connection.Kept.{ack_received-kept, tick-Ticked}
use cs144_2021_sponge.Connection.Sending.{Sends, Sends-Tracks}

module _ {s : List ℕ} {isn : WrappingInt32} (short : length s + 2 < 2 ^ 31)
    (word : isn.raw_value < 2 ^ 32) {cap : ℕ} (small : cap < 2 ^ 64) where
  module _ {x : TcpSender} (v : Sends s isn cap x) where
    -- Another state of the queues and of the acknowledgment.
    requeued :
        (y : TcpSender)
        → y.isn ≡ x.isn
        → y.stream ≡ x.stream
        → y.next_seqno ≡ x.next_seqno
        → y.set_fin_flag ≡ x.set_fin_flag
        → y.receiver_window_size < 2 ^ 16
        → y.receiver_ack ≤ x.next_seqno
        → All (Good s isn x.next_seqno) y.segments_out
        → All (Good s isn x.next_seqno) y.outstanding_segments
        → Chain y.isn y.receiver_ack y.outstanding_segments y.next_seqno
        → Sends s isn cap y
    requeued y i b n f w a o q c =
        let d = v.drawn in
        record {
          drawn = record {
            history = d.history;
            represents = subst (λ z. Represents cap z d.history) (sym b) d.represents;
            prefix = d.prefix;
            inside = d.inside;
            last = d.last;
            isn_kept = i ∙ d.isn_kept;
            window = w;
            acked = omega (arith, a, n);
            position = λ p. ground (arith, n, f, p, d.position);
            unopened = λ z. ground (arith, n, f, z, d.unopened);
            finished = λ t. d.finished (sym f ∙ t);
            out = subst (λ (k : ℕ). All (Good s isn k) y.segments_out) (sym n) o;
            queue = subst (λ (k : ℕ). All (Good s isn k) y.outstanding_segments) (sym n) q;
          };
          chain = c;
        }

    pub transmit-Sends : Sends s isn cap (record x { segments_out = [] })
    transmit-Sends =
        requeued (record x { segments_out = [] }) refl refl refl refl v.drawn.window v.drawn.acked
          tt v.drawn.queue v.chain

    pub tick-Sends : (ms : ℕ) (y : TcpSender) → tick x ms ≡ some y → Sends s isn cap y
    tick-Sends ms y e =
        let t = tick-Ticked (Good s isn x.next_seqno) x y ms e in
        let d = v.drawn in
        requeued y t.isn t.stream t.next t.fin (omega (arith, t.window, d.window))
          (omega (arith, t.ack, d.acked)) (t.out d.queue d.out)
          (subst (All (Good s isn x.next_seqno)) (sym t.queue) d.queue)
          (Chain-moved (sym t.isn) (sym t.ack) (sym t.queue) (sym t.next) v.chain)

    -- An empty segment counts as a piece without bytes.
    empty-Good :
        0 < x.next_seqno
        → x.set_fin_flag ≡ false
        → Good s isn x.next_seqno (record {
          header = record default_header { seqno = next_seqno_relative x };
          payload = [];
        })
    empty-Good pos open_ = record {
      index = x.next_seqno - 1;
      piece = record {
        inside =
            ground (arith, v.drawn.position pos, open_, v.drawn.represents.within, v.drawn.inside);
        right = λ i h. absurd (omega (arith, h));
        last = λ e. cc;
      };
      numbered = ap₂ wrap (omega (arith, pos)) v.drawn.isn_kept;
      first = λ e. cc;
      small = omega arith;
      sent = omega (arith, pos);
    }

    pub send_empty_segment-Sends :
        0 < x.next_seqno → x.set_fin_flag ≡ false → Sends s isn cap (send_empty_segment x)
    unfolding send_empty_segment
    send_empty_segment-Sends pos open_ =
        let d = v.drawn in
        requeued (send_empty_segment x) refl refl refl refl d.window d.acked
          (All-append _ x.segments_out _ d.out (empty-Good pos open_, tt)) d.queue v.chain

    pub ack_received-Sends :
        (a : WrappingInt32) (window : ℕ)
        → window < 2 ^ 16
        → Sends s isn cap (ack_received x a window)
    ack_received-Sends a window w =
        let n = unwrap a x.isn x.next_seqno in
        elim (Bool-cases (ltb x.next_seqno n || ltb n x.receiver_ack)) [
          | inl bad ↦
              subst (Sends s isn cap) (sym (ack_received_ignored x a window (ground (arith, bad))))
                v
          | inr fine ↦
              let t =
                ack_received-Takes x (Sends-Tracks short word small v) a window
                  (ground (arith, fine)) (ground (arith, fine)) in
              let k = ack_received-kept x a window in
              requeued (ack_received x a window) k.0 k.2 k.3 k.4 (omega (arith, t.window_kept, w))
                (ground (arith, t.below, fine))
                (subst (All (Good s isn x.next_seqno)) (sym k.1) v.drawn.out)
                (All-suffix (Good s isn x.next_seqno) t.popped _
                  (subst (All (Good s isn x.next_seqno)) t.split v.drawn.queue))
                t.tracks.chain
        ]
