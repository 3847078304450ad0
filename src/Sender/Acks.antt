-- ===== src/Sender/Acks.antt =====
-- `ack_received` of libsponge/tcp_sender.cc: which segments an acknowledgment takes off the queue.
use cs144_2021_sponge.Prelude.{
  ℕ, ◌+◌, ◌^◌, ◌≤◌, ◌<◌, ◌≡◌, ◌⊎◌, refl, ap, Bool, true, ◌||◌, List, [], ◌∷◌, ◌++◌, ltb, leb,
  Bool-cases, inl, inr, arith, add64,
}
use cs144_2021_sponge.Wrapping.{WrappingInt32, unwrap}
use cs144_2021_sponge.Wrapping.Laws.{unwrap-wrap}
use cs144_2021_sponge.Segment.{TcpSegment, length_in_sequence_space}
use cs144_2021_sponge.Sender.{TcpSender, ack_loop, ack_received}
use cs144_2021_sponge.Sender.Chain.{Chain, Chain-occupied}

-- The outstanding segments number the stretch from the acknowledged number up to the next one, less
-- than 2 ^ 31 long, with absolute numbers below 2 ^ 62.
pub record Tracks (s : TcpSender) : Type 0 where
  pub chain : Chain s.isn s.receiver_ack s.outstanding_segments s.next_seqno
  pub flight : s.next_seqno < s.receiver_ack + 2 ^ 31
  pub numbers : s.next_seqno < 2 ^ 62
  pub word : s.isn.raw_value < 2 ^ 32

-- Nothing at the front of the queue is acknowledged as a whole.
abbrev pub IsPending : ℕ → ℕ → List TcpSegment → Type 0
IsPending ack n [] = Unit {0}
IsPending ack n (seg ∷ segs) = n < ack + length_in_sequence_space seg

-- What the loop has done to the sender `s`, whose queue was `segs`.
pub record Acked (s : TcpSender) (n : ℕ) (segs : List TcpSegment) (updated : Bool)
    (out : TcpSender × Bool) : Type 0 where
  pub popped : List TcpSegment
  pub split : segs ≡ popped ++ out.0.outstanding_segments
  pub chain : Chain s.isn out.0.receiver_ack out.0.outstanding_segments s.next_seqno
  pub below : s.receiver_ack ≤ n → out.0.receiver_ack ≤ n
  pub grows : s.receiver_ack ≤ out.0.receiver_ack
  pub pending : IsPending out.0.receiver_ack n out.0.outstanding_segments
  pub flag : out.1 ≡ (updated || ltb s.receiver_ack out.0.receiver_ack)
  pub next : out.0.next_seqno ≡ s.next_seqno
  pub isn : out.0.isn ≡ s.isn

-- The loop recovers the end of the first segment from its 32-bit number.
end_exact :
    (seg : TcpSegment) (segs : List TcpSegment) (s : TcpSender)
    → Chain s.isn s.receiver_ack (seg ∷ segs) s.next_seqno
    → s.next_seqno < s.receiver_ack + 2 ^ 31
    → s.next_seqno < 2 ^ 62
    → s.isn.raw_value < 2 ^ 32
    → (add64 (unwrap seg.header.seqno s.isn s.next_seqno) (length_in_sequence_space seg)
        ≡ s.receiver_ack + length_in_sequence_space seg)
      × (s.receiver_ack + length_in_sequence_space seg ≤ s.next_seqno)
end_exact seg segs s c flight small word =
    let inside : s.receiver_ack + length_in_sequence_space seg ≤ s.next_seqno = omega (
      arith,
      Chain-occupied s.isn (s.receiver_ack + length_in_sequence_space seg) segs s.next_seqno c.2,
    ) in
    let start : unwrap seg.header.seqno s.isn s.next_seqno ≡ s.receiver_ack =
      rw c.0 (unwrap-wrap s.receiver_ack s.isn s.next_seqno word (omega arith) (omega arith)) in
    (omega arith, inside)

-- A round that pops the first segment.
Acked-next :
    {s : TcpSender} {n : ℕ} (seg : TcpSegment) (segs : List TcpSegment) (updated : Bool)
    {out : TcpSender × Bool}
    → 0 < length_in_sequence_space seg
    → s.receiver_ack + length_in_sequence_space seg ≤ n
    → Acked
        (record s { receiver_ack = s.receiver_ack + length_in_sequence_space seg })
        n
        segs
        true
        out
    → Acked s n (seg ∷ segs) updated out
Acked-next seg segs updated pos le a = record {
  popped = seg ∷ a.popped;
  split = ap (λ zs. seg ∷ zs) a.split;
  chain = a.chain;
  below = λ _. a.below le;
  grows = omega (arith, a.grows);
  pending = a.pending;
  flag = ground (arith, a.flag, a.grows);
  next = a.next;
  isn = a.isn;
}

module _ (n : ℕ) where
  pub ack_loop-Acked :
      (segs : List TcpSegment) (s : TcpSender) (updated : Bool)
      → Chain s.isn s.receiver_ack segs s.next_seqno
      → s.next_seqno < s.receiver_ack + 2 ^ 31
      → s.next_seqno < 2 ^ 62
      → s.isn.raw_value < 2 ^ 32
      → Acked s n segs updated (ack_loop s n segs updated)
  unfolding ack_loop
  ack_loop-Acked [] s updated c flight small word = record {
    popped = [];
    split = refl;
    chain = c;
    below = λ h. h;
    grows = omega arith;
    pending = tt;
    flag = ground arith;
    next = refl;
    isn = refl;
  }
  ack_loop-Acked (seg ∷ segs) s updated c flight small word =
      let (exact, inside) = end_exact seg segs s c flight small word in
      let end = s.receiver_ack + length_in_sequence_space seg in
      elim (Bool-cases (leb end n)) [
        | inl acked ↦
            rw (exact, acked)
              (Acked-next seg segs updated c.1 (ground (arith, acked)) (
                ack_loop-Acked segs (record s { receiver_ack = end }) true c.2 (omega arith) small
                  word))
        | inr waits ↦
            rw (exact, waits)
              (record {
                popped = [];
                split = refl;
                chain = c;
                below = λ h. h;
                grows = omega arith;
                pending = ground (arith, waits);
                flag = ground arith;
                next = refl;
                isn = refl;
              })
      ]

-- An acknowledgment of something never sent, or of less than is acknowledged already, changes nothing.
pub ack_received_ignored :
    (s : TcpSender) (ackno : WrappingInt32) (window : ℕ)
    → (s.next_seqno < unwrap ackno s.isn s.next_seqno)
      ⊎ (unwrap ackno s.isn s.next_seqno < s.receiver_ack)
    → ack_received s ackno window ≡ s
unfolding ack_received
ack_received_ignored s ackno window h = ground (arith, h)

-- What the loop leaves alone.
pub ack_loop-same :
    (segs : List TcpSegment) (s : TcpSender) (n : ℕ) (updated : Bool)
    → ((ack_loop s n segs updated).0.receiver_window_size ≡ s.receiver_window_size)
      × ((ack_loop s n segs updated).0.consecutive_retransmissions ≡ s.consecutive_retransmissions)
      × ((ack_loop s n segs updated).0.initial_retransmission_timeout
          ≡ s.initial_retransmission_timeout)
      × ((ack_loop s n segs updated).0.retransmission_timer ≡ s.retransmission_timer)
unfolding ack_loop
ack_loop-same [] s n updated = (refl, refl, refl, refl)
ack_loop-same (seg ∷ segs) s n updated =
    let end = add64 (unwrap seg.header.seqno s.isn s.next_seqno) (length_in_sequence_space seg) in
    ground (arith, ack_loop-same segs (record s { receiver_ack = end }) n true)
