-- ===== src/Connection/Kept.antt =====
-- What `ack_received` and `tick` of libsponge/tcp_sender.cc leave alone.
use cs144_2021_sponge.Prelude.{
  ℕ, zero, suc, ◌≡◌, refl, sym, ap, subst, Bool, true, false, some, List, [], ◌∷◌, ◌++◌, length,
  take, arith, add64, All, All-append, Bool-cases, inl, inr,
}
use cs144_2021_sponge.Wrapping.{WrappingInt32, unwrap}
use cs144_2021_sponge.Segment.{TcpSegment, length_in_sequence_space}
use cs144_2021_sponge.Sender.{
  TcpSender, ack_loop, ack_received, stop_if_done, reset_timer, tick, retransmit,
}
use cs144_2021_sponge.Timer.{check_timeout}

-- A piece of a piece is as long as it is.
pub take-take_self :
    (c n : ℕ) (xs : List ℕ) → take c (take n xs) ≡ take (length (take c (take n xs))) xs
take-take_self zero n xs = refl
take-take_self (suc c) zero xs = refl
take-take_self (suc c) (suc n) [] = refl
take-take_self (suc c) (suc n) (x ∷ xs) = ap (λ zs. x ∷ zs) (take-take_self c n xs)

-- What `ack_received` leaves alone.
ack_loop-kept :
    (segs : List TcpSegment) (x : TcpSender) (n : ℕ) (updated : Bool)
    → let y = (ack_loop x n segs updated).0 in
      (y.isn ≡ x.isn)
      × (y.segments_out ≡ x.segments_out)
      × (y.stream ≡ x.stream)
      × (y.next_seqno ≡ x.next_seqno)
      × (y.set_fin_flag ≡ x.set_fin_flag)
unfolding ack_loop
ack_loop-kept [] x n updated = (refl, refl, refl, refl, refl)
ack_loop-kept (seg ∷ segs) x n updated =
    let end = add64 (unwrap seg.header.seqno x.isn x.next_seqno) (length_in_sequence_space seg) in
    ground (arith, ack_loop-kept segs (record x { receiver_ack = end }) n true)

pub ack_received-kept :
    (x : TcpSender) (a : WrappingInt32) (window : ℕ)
    → let y = ack_received x a window in
      (y.isn ≡ x.isn)
      × (y.segments_out ≡ x.segments_out)
      × (y.stream ≡ x.stream)
      × (y.next_seqno ≡ x.next_seqno)
      × (y.set_fin_flag ≡ x.set_fin_flag)
unfolding ack_received stop_if_done reset_timer
ack_received-kept x a window = ground (
  arith,
  ack_loop-kept x.outstanding_segments (record x { receiver_window_size = window })
      (unwrap a x.isn x.next_seqno) false,
)

-- What `tick` does to everything but the timer and the count of retransmissions.
pub record Ticked (P : TcpSegment → Type 0) (x y : TcpSender) : Type 0 where
  pub isn : y.isn ≡ x.isn
  pub stream : y.stream ≡ x.stream
  pub next : y.next_seqno ≡ x.next_seqno
  pub fin : y.set_fin_flag ≡ x.set_fin_flag
  pub ack : y.receiver_ack ≡ x.receiver_ack
  pub window : y.receiver_window_size ≡ x.receiver_window_size
  pub queue : y.outstanding_segments ≡ x.outstanding_segments
  pub out : All P x.outstanding_segments → All P x.segments_out → All P y.segments_out

retransmit-Ticked :
    (P : TcpSegment → Type 0) (x y : TcpSender) (segs : List TcpSegment)
    → x.outstanding_segments ≡ segs
    → retransmit x segs ≡ some y
    → Ticked P x y
unfolding retransmit reset_timer
retransmit-Ticked P x y [] e r = cc
retransmit-Ticked P x y (seg ∷ segs) e r =
    let queued : y.segments_out ≡ x.segments_out ++ (seg ∷ []) = ground (arith, r) in
    record {
      isn = ground (arith, r);
      stream = ground (arith, r);
      next = ground (arith, r);
      fin = ground (arith, r);
      ack = ground (arith, r);
      window = ground (arith, r);
      queue = ground (arith, r);
      out = λ q o.
          subst (All P) (sym queued)
            (All-append P x.segments_out (seg ∷ []) o ((subst (All P) e q).0, tt));
    }

pub tick-Ticked :
    (P : TcpSegment → Type 0) (x y : TcpSender) (ms : ℕ) → tick x ms ≡ some y → Ticked P x y
unfolding tick
tick-Ticked P x y ms e = elim (Bool-cases (check_timeout x.retransmission_timer ms).1) [
  | inl late ↦
      let t =
        retransmit-Ticked P
          (record x { retransmission_timer = (check_timeout x.retransmission_timer ms).0 }) y
          x.outstanding_segments refl (ground (arith, late, e)) in
      record {
        isn = t.isn;
        stream = t.stream;
        next = t.next;
        fin = t.fin;
        ack = t.ack;
        window = t.window;
        queue = t.queue;
        out = t.out;
      }
  | inr early ↦
      let same : record x { retransmission_timer = (check_timeout x.retransmission_timer ms).0 }
          ≡ y =
        ground (arith, early, e) in
      subst (λ z. Ticked P x z) same
        (record {
          isn = refl;
          stream = refl;
          next = refl;
          fin = refl;
          ack = refl;
          window = refl;
          queue = refl;
          out = λ q o. o;
        })
]
