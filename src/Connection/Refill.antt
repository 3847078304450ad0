-- ===== src/Connection/Refill.antt =====
-- With nothing outstanding, the application writes on or ends its stream, and `fill_window` of
-- libsponge/tcp_sender.cc sends something.
use cs144_2021_sponge.Prelude.{
  ℕ, ◌+◌, ◌-◌, ◌^◌, ◌<◌, ◌≡◌, refl, sym, ap, ap₂, ◌∙◌, ◌⊎◌, Bool, true, List, [], ◌∷◌, ◌++◌, length,
  take, drop, arith, inl, inr, length-append, length-take, length-drop,
}
use cs144_2021_sponge.ByteStream.{ByteStream, bytes_written, buffer_size, input_ended, end_input}
use cs144_2021_sponge.ByteStream.Spec as Spec
use cs144_2021_sponge.ByteStream.Refine.{length-buffer, write_refines}
use cs144_2021_sponge.Wrapping.{WrappingInt32}
use cs144_2021_sponge.Segment.{TcpSegment}
use cs144_2021_sponge.Sender.{TcpSender, fill_once, fill_window, enqueue, make_syn}
use cs144_2021_sponge.Sender.Chain.{Chain-moved, payloads}
use cs144_2021_sponge.Sender.Cases.{fill_once_cases, fill_loop_induction}
use cs144_2021_sponge.Sender.Made.{made-ended}
use cs144_2021_sponge.Sender.Fill.{Filled}
use cs144_2021_sponge.Connection.{Net, writes, ends, Run, stay, then_, write_next}
use cs144_2021_sponge.Connection.Drawn.{Drawn}
use cs144_2021_sponge.Connection.Filling.{fill_window-Drawn}
use cs144_2021_sponge.Connection.Sending.{Sends}
use cs144_2021_sponge.Connection.Invariant.{Holds}

-- There is something to read, or the stream has ended.
abbrev Ready : TcpSender → Type 0
Ready x = (0 < buffer_size x.stream) ⊎ (input_ended x.stream ≡ true)

fill_once-ended :
    (b : Bool) (x : TcpSender) → input_ended x.stream ≡ b → input_ended (fill_once x).0.stream ≡ b
unfolding enqueue make_syn
fill_once-ended b x e =
    fill_once_cases (λ out. input_ended out.0.stream ≡ b) x (λ _. e) (λ _ _. e)
      (λ _ _ _ _. made-ended x ∙ e) (λ _ _ _. made-ended x ∙ e)

fill_window-ended : (x : TcpSender) → input_ended (fill_window x).stream ≡ input_ended x.stream
unfolding fill_window
fill_window-ended x =
    fill_loop_induction (λ y. input_ended y.stream ≡ input_ended x.stream)
      (fill_once-ended (input_ended x.stream)) (buffer_size x.stream + 3) x refl

end_input-ends : (b : ByteStream) → input_ended (end_input b) ≡ true
unfolding end_input
end_input-ends b = refl

module _ {s : List ℕ} {isn : WrappingInt32} (short : length s + 2 < 2 ^ 31)
    (word : isn.raw_value < 2 ^ 32) {cap : ℕ} (small : cap < 2 ^ 64) (positive : 0 < cap) where
  written_Ready :
      (x : TcpSender)
      → Sends s isn cap x
      → (bytes_written (write_next s x (length s)).stream ≡ length s)
        ⊎ (0 < buffer_size (write_next s x (length s)).stream)
  unfolding Spec.call
  written_Ready x v =
      let h = v.drawn.history in
      let xs = take (length s) (drop (bytes_written x.stream) s) in
      let r = (write_refines small v.drawn.represents xs).0 in
      ground (
        arith,
        positive,
        r.written,
        r.fits,
        length-buffer small r,
        v.drawn.represents.written,
        v.drawn.represents.within,
        v.drawn.inside,
        length-append h.accepted (take (cap - Spec.held h) xs),
        length-take (cap - Spec.held h) xs,
        length-take (length s) (drop (bytes_written x.stream) s),
        length-drop (bytes_written x.stream) s,
        short,
      )

  pub prepare :
      {room : ℕ} (n : Net)
      → Holds s isn cap room n
      → (m : Net) × Run s n m
        × Ready m.sender
        × (m.sender.outstanding_segments ≡ n.sender.outstanding_segments)
        × (m.sender.receiver_ack ≡ n.sender.receiver_ack)
  prepare n v =
      let x : TcpSender = write_next s n.sender (length s) in
      let wrote : Run s n (record n { sender = x }) = then_ stay (writes (length s)) in
      elim (written_Ready n.sender v.sends) [
        | inr some_left ↦ (record n { sender = x }, wrote, inl some_left, refl, refl)
        | inl all ↦ (
          record n { sender = record x { stream = end_input x.stream } },
          then_ wrote (ends all),
          inr (end_input-ends x.stream),
          refl,
          refl,
        )
      ]

  -- With nothing outstanding and not all acknowledged, `fill_window` sends something.
  module _ {room : ℕ} (n : Net) (v : Holds s isn cap room n) (ready : Ready n.sender)
      (none_out : n.sender.outstanding_segments ≡ []) (left : n.sender.receiver_ack < length s + 2)
      (f : Filled n.sender (fill_window n.sender)) where
    idle : n.sender.next_seqno ≡ n.sender.receiver_ack
    idle = sym (Chain-moved refl refl none_out refl v.sends.chain)

    after : Drawn s isn cap (fill_window n.sender)
    after = fill_window-Drawn s isn short word small n.sender v.sends.drawn

    never_stuck : f.segs ≡ [] → ⊥
    unfolding payloads
    never_stuck e =
        let same : n.sender.next_seqno ≡ (fill_window n.sender).next_seqno =
          Chain-moved refl refl e refl f.sends.chain in
        let bytes : n.sender.stream.buffer ≡ (fill_window n.sender).stream.buffer =
          f.sends.bytes ∙ ap (λ segs. payloads segs ++ (fill_window n.sender).stream.buffer) e in
        elim f.done [
          | inl fin ↦
              ground (arith, fin, after.finished, after.position, after.unopened, same, idle, left)
          | inr (inl full) ↦ ground (arith, full, same, idle, f.sends.ack)
          | inr (inr none_left) ↦ elim ready [
            | inl more ↦ omega (arith, more, ap length bytes, none_left.0)
            | inr ended ↦ ground (arith, ended, none_left.1, fill_window-ended n.sender)
          ]
        ]

    pub fill_sends :
        (segs : List TcpSegment)
        → f.segs ≡ segs
        → (seg : TcpSegment) × (rest : List TcpSegment) × ((fill_window
              n.sender).outstanding_segments
            ≡ seg ∷ rest)
    fill_sends [] e = absurd (never_stuck e)
    fill_sends (seg ∷ rest) e = (seg, rest, f.sends.kept ∙ ap₂ ◌++◌ none_out e)
