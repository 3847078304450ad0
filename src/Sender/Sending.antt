-- ===== src/Sender/Sending.antt =====
-- What one call of `fill_window` in libsponge/tcp_sender.cc puts into the queues.
use cs144_2021_sponge.Prelude.{
  ℕ, ◌+◌, ◌^◌, ◌≤◌, ◌<◌, ◌≡◌, refl, sym, ap, subst, ◌∙◌, List, [], ◌++◌, append-nil, append_assoc,
  ◌==◌, take, drop, if◌then◌else◌, arith, add64,
}
use cs144_2021_sponge.ByteStream.{ByteStream, buffer_size, read}
use cs144_2021_sponge.ByteStream.Loops.{read_loop-split}
use cs144_2021_sponge.Segment.{TcpSegment}
use cs144_2021_sponge.Sender.{TcpSender}
use cs144_2021_sponge.Sender.Chain.{
  Chain, AllSmall, payloads, Chain-append, AllSmall-append, payloads-append,
}

-- The sequence numbers that are still to be used: the bytes in the stream, the SYN and the FIN.
abbrev pub remaining : TcpSender → ℕ
remaining s =
    buffer_size s.stream + (if s.next_seqno == 0 then 1 else 0) + (if s.set_fin_flag then 0 else 1)

-- Nothing has wrapped and nothing will: the absolute numbers to come stay below 2 ^ 64.
pub record IsSound (s : TcpSender) : Type 0 where
  pub numbers : s.next_seqno + remaining s < 2 ^ 64
  pub acked : s.receiver_ack ≤ s.next_seqno
  pub window : s.receiver_window_size < 2 ^ 16
  pub word : s.isn.raw_value < 2 ^ 32

-- The segments that lead from `s` to `s'` follow on in the sequence space, carry the bytes that left
-- the stream, and are queued for sending and for acknowledgment.
pub record Sends (s s' : TcpSender) (new : List TcpSegment) : Type 0 where
  pub out : s'.segments_out ≡ s.segments_out ++ new
  pub kept : s'.outstanding_segments ≡ s.outstanding_segments ++ new
  pub chain : Chain s.isn s.next_seqno new s'.next_seqno
  pub bytes : s.stream.buffer ≡ payloads new ++ s'.stream.buffer
  pub small : AllSmall new
  pub isn : s'.isn ≡ s.isn
  pub ack : s'.receiver_ack ≡ s.receiver_ack
  pub window : s'.receiver_window_size ≡ s.receiver_window_size

pub Sends-none : (s : TcpSender) → Sends s s []
unfolding payloads
Sends-none s = record {
  out = sym (append-nil s.segments_out);
  kept = sym (append-nil s.outstanding_segments);
  chain = refl;
  bytes = refl;
  small = tt;
  isn = refl;
  ack = refl;
  window = refl;
}

pub Sends-trans :
    {s t u : TcpSender} {xs ys : List TcpSegment}
    → Sends s t xs
    → Sends t u ys
    → Sends s u (xs ++ ys)
Sends-trans {s} {t} {u} {xs} {ys} p q = record {
  out = q.out ∙ ap (λ zs. zs ++ ys) p.out ∙ append_assoc s.segments_out xs ys;
  kept = q.kept ∙ ap (λ zs. zs ++ ys) p.kept ∙ append_assoc s.outstanding_segments xs ys;
  chain =
      Chain-append s.isn s.next_seqno xs ys t.next_seqno u.next_seqno p.chain
        (subst (λ i. Chain i t.next_seqno ys u.next_seqno) p.isn q.chain);
  bytes =
      p.bytes
      ∙ ap (λ zs. payloads xs ++ zs) q.bytes
      ∙ sym (append_assoc (payloads xs) (payloads ys) u.stream.buffer)
      ∙ ap (λ zs. zs ++ u.stream.buffer) (sym (payloads-append xs ys));
  small = AllSmall-append xs ys p.small q.small;
  isn = q.isn ∙ p.isn;
  ack = q.ack ∙ p.ack;
  window = q.window ∙ p.window;
}

-- A read of bytes that are there.
pub read_exact :
    (b : ByteStream) (n : ℕ)
    → n ≤ buffer_size b
    → ((read b n).0 ≡ record b { buffer = drop n b.buffer; read_bytes = add64 b.read_bytes n })
      × ((read b n).1 ≡ take n b.buffer)
unfolding read
read_exact b n h = ground (arith, read_loop-split n b.buffer [])
