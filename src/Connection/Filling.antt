-- ===== src/Connection/Filling.antt =====
-- Every segment that `fill_window` of libsponge/tcp_sender.cc makes is a piece of the text that the
-- application writes.
use cs144_2021_sponge.Prelude.{
  ℕ, ◌+◌, ◌^◌, ◌≤◌, ◌<◌, ◌≡◌, refl, sym, ap, ap₂, subst, ◌∙◌, true, false, List, [], ◌∷◌, length,
  take, drop, arith, All, All-append, take-drop-take,
}
use cs144_2021_sponge.ByteStream.{buffer_size, eof}
use cs144_2021_sponge.ByteStream.Spec.{held}
use cs144_2021_sponge.ByteStream.Refine.{Represents, length-buffer, taken_Represents}
use cs144_2021_sponge.Wrapping.{WrappingInt32, wrap}
use cs144_2021_sponge.Segment.{TcpSegment}
use cs144_2021_sponge.Reassembler.Contract.{slice-Fragment}
use cs144_2021_sponge.Sender.{TcpSender, make_syn, enqueue, fill_once, fill_window}
use cs144_2021_sponge.Sender.Cases.{made, fill_once_cases, fill_loop_induction}
use cs144_2021_sponge.Sender.Sending.{IsSound, read_exact}
use cs144_2021_sponge.Sender.Made.{
  size, size-le, made-same, made-stream, made-seqno, made-payload, made-flags, made-next, made-fin,
  length-payload, length-made,
}
use cs144_2021_sponge.Connection.Drawn.{
  Good, Good-later, AllGood-later, Drawn, Drawn-IsSound, empty-length,
}

syn-next : (x : TcpSender) → x.next_seqno ≡ 0 → 1 ≤ (make_syn x).0.next_seqno
unfolding make_syn
syn-next x z = omega (arith, z)

module _ (s : List ℕ) (isn : WrappingInt32) (short : length s + 2 < 2 ^ 31)
    (word : isn.raw_value < 2 ^ 32) {cap : ℕ} (small : cap < 2 ^ 64) where
  syn-Good : (x : TcpSender) → x.isn ≡ isn → Good s isn 1 (make_syn x).1
  unfolding make_syn wrap
  syn-Good x e = record {
    index = 0;
    piece = record {
      inside = omega arith;
      right = λ i h. absurd (omega (arith, h));
      last = λ e. cc;
    };
    numbered = e ∙ ground (arith, word);
    first = λ _. refl;
    small = omega arith;
    sent = omega arith;
  }

  module _ {x : TcpSender} (d : Drawn s isn cap x) (e : x.set_fin_flag ≡ false)
      (pos : 0 < x.next_seqno) where
    v : IsSound x
    v = Drawn-IsSound s isn short word small d

    enough : size x ≤ held d.history
    enough = omega (arith, size-le x, length-buffer small d.represents)

    cut : (made x).1.payload ≡ take (length (made x).1.payload) (drop d.history.taken s)
    cut =
        made-payload x
        ∙ ap (λ bs. take (size x) bs)
            (d.represents.contents ∙ ap (λ bs. drop d.history.taken bs) d.prefix)
        ∙ take-drop-take d.history.taken (size x) (length d.history.accepted) s
            (omega (arith, d.represents.within, enough))
        ∙ ap (λ (n : ℕ). take n (drop d.history.taken s)) (sym (length-payload x))

    made-history :
        Represents cap (made x).0.stream (record d.history { taken = d.history.taken + size x })
    made-history =
        subst (λ b. Represents cap b (record d.history { taken = d.history.taken + size x }))
          (sym (made-stream x ∙ (read_exact x.stream (size x) (size-le x).0).0))
          (taken_Represents small d.represents (size x) enough)

    made-finished : (made x).0.set_fin_flag ≡ true → d.history.taken + size x ≡ length s
    made-finished fin =
        let h = made-history in
        let ended : eof (made x).0.stream ≡ true =
          ground (arith, made-fin x e v, ap eof (made-stream x), fin) in
        ground (
          arith,
          ended,
          h.ended,
          d.last,
          h.within,
          length-buffer small h,
          empty-length (made x).0.stream.buffer,
        )

    made-Good : Good s isn (made x).0.next_seqno (made x).1
    made-Good = record {
      index = d.history.taken;
      piece =
          slice-Fragment s _ d.history.taken _
            (omega (arith, length-payload x, enough, d.represents.within, d.inside)) cut
            (λ fin. ground (arith, made-finished, made-flags x e, fin, length-payload x));
      numbered =
          made-seqno x ∙ ap₂ wrap (ground (arith, d.position pos, e, made-flags x e)) d.isn_kept;
      first = λ syn. ground (arith, syn, made-flags x e);
      small = omega (arith, length-payload x, size-le x);
      sent = ground (
        arith,
        made-next x e v,
        length-made x e v,
        length-payload x,
        made-flags x e,
        d.position pos,
        e,
      );
    }

    made-Drawn : Drawn s isn cap (made x).0
    made-Drawn = record {
      history = record d.history { taken = d.history.taken + size x };
      represents = made-history;
      prefix = d.prefix;
      inside = d.inside;
      last = d.last;
      isn_kept = (made-same x).2 ∙ d.isn_kept;
      window = omega (arith, made-same x, d.window);
      acked = omega (arith, made-same x, made-next x e v, d.acked);
      position = λ _. ground (arith, d.position pos, e, made-next x e v, length-made x e v);
      unopened = λ z. absurd (omega (arith, made-next x e v));
      finished = made-finished;
      out =
          subst (λ segs. All (Good s isn (made x).0.next_seqno) segs) (sym (made-same x).0)
            (AllGood-later s isn x.segments_out (omega (arith, made-next x e v)) d.out);
      queue =
          subst (λ segs. All (Good s isn (made x).0.next_seqno) segs) (sym (made-same x).1)
            (AllGood-later s isn x.outstanding_segments (omega (arith, made-next x e v)) d.queue);
    }

  enqueue-Drawn :
      {x : TcpSender} (seg : TcpSegment)
      → Drawn s isn cap x
      → Good s isn x.next_seqno seg
      → Drawn s isn cap (enqueue x seg)
  unfolding enqueue
  enqueue-Drawn {x} seg d g = record {
    history = d.history;
    represents = d.represents;
    prefix = d.prefix;
    inside = d.inside;
    last = d.last;
    isn_kept = d.isn_kept;
    window = d.window;
    acked = d.acked;
    position = d.position;
    unopened = d.unopened;
    finished = d.finished;
    out = All-append _ x.segments_out (seg ∷ []) d.out (g, tt);
    queue = All-append _ x.outstanding_segments (seg ∷ []) d.queue (g, tt);
  }

  opened-Drawn :
      {x : TcpSender}
      → Drawn s isn cap x
      → x.set_fin_flag ≡ false
      → x.next_seqno ≡ 0
      → Drawn s isn cap (make_syn x).0
  unfolding make_syn
  opened-Drawn {x} d e z = record {
    history = d.history;
    represents = d.represents;
    prefix = d.prefix;
    inside = d.inside;
    last = d.last;
    isn_kept = d.isn_kept;
    window = d.window;
    acked = omega (arith, d.acked);
    position = λ _. ground (arith, d.unopened z, z, e);
    unopened = λ y. absurd (omega (arith, y));
    finished = d.finished;
    out = AllGood-later s isn x.segments_out (omega (arith, z)) d.out;
    queue = AllGood-later s isn x.outstanding_segments (omega (arith, z)) d.queue;
  }

  fill_once-Drawn : (x : TcpSender) → Drawn s isn cap x → Drawn s isn cap (fill_once x).0
  fill_once-Drawn x d =
      fill_once_cases (λ out. Drawn s isn cap out.0) x (λ _. d)
        (λ e z.
          enqueue-Drawn (make_syn x).1 (opened-Drawn d e z)
            (Good-later s isn (make_syn x).1 (syn-next x z) (syn-Good x d.isn_kept)))
        (λ e pos _ _. made-Drawn d e pos)
        (λ e pos _. enqueue-Drawn (made x).1 (made-Drawn d e pos) (made-Good d e pos))

  pub fill_window-Drawn : (x : TcpSender) → Drawn s isn cap x → Drawn s isn cap (fill_window x)
  unfolding fill_window
  fill_window-Drawn x d =
      fill_loop_induction (Drawn s isn cap) fill_once-Drawn (buffer_size x.stream + 3) x d
