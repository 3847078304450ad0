-- ===== src/Sender/Round.antt =====
-- One round of `fill_window` of libsponge/tcp_sender.cc: a segment is sent and there is less to do, or
-- nothing is left to do.
use cs144_2021_sponge.Prelude.{
  ℕ, ◌+◌, ◌^◌, ◌≤◌, ◌<◌, ◌≡◌, ◌⊎◌, refl, sym, ap, ap₂, subst, ◌∙◌, Bool, true, false, List, [], ◌∷◌,
  ◌++◌, append-nil, ltb, length, drop, Bool-cases, inl, inr, arith, length-drop, take-append-drop,
}
use cs144_2021_sponge.ByteStream.{buffer_size, eof, input_ended, is_empty}
use cs144_2021_sponge.Wrapping.{WrappingInt32, wrap}
use cs144_2021_sponge.Segment.{TcpSegment, length_in_sequence_space}
use cs144_2021_sponge.Sender.{
  TcpSender, make_syn, payload_size, enqueue, fill_once, usable_window, bytes_in_flight,
}
use cs144_2021_sponge.Sender.Cases.{made, fill_once_cases}
use cs144_2021_sponge.Sender.Chain.{payloads}
use cs144_2021_sponge.Sender.Sending.{IsSound, Sends, Sends-none, remaining}
use cs144_2021_sponge.Sender.Made.{
  size, size-le, made-same, made-seqno, made-buffer, made-payload, made-ended, made-stream,
  length-payload, length-made, made-next, made-fin,
}

is_empty_of_length : (xs : List ℕ) → length xs ≡ 0 → is_empty xs ≡ true
is_empty_of_length [] h = refl
is_empty_of_length (x ∷ xs) h = absurd (omega arith)

-- Nothing is left to do: the FIN is sent, the window is full, or the stream has no byte and goes on.
abbrev pub IsDone : TcpSender → Type 0
IsDone s =
    (s.set_fin_flag ≡ true)
    ⊎ (usable_window s ≤ bytes_in_flight s)
    ⊎ ((buffer_size s.stream ≡ 0) × (input_ended s.stream ≡ false))

pub record Step (s : TcpSender) (out : TcpSender × Bool) : Type 0 where
  pub segs : List TcpSegment
  pub sends : Sends s out.0 segs
  pub sound : IsSound out.0
  pub shrinks : out.1 ≡ true → remaining out.0 < remaining s
  pub stuck : out.1 ≡ false → IsDone out.0

module _ (s : TcpSender) (v : IsSound s) (open_ : s.set_fin_flag ≡ false) where
  opened : TcpSender
  opened = enqueue (make_syn s).0 (make_syn s).1

  syn-Step : s.next_seqno ≡ 0 → Step s (opened, true)
  unfolding opened enqueue make_syn wrap length_in_sequence_space payloads
  syn-Step z = record {
    segs = (make_syn s).1 ∷ [];
    sends = record {
      out = refl;
      kept = refl;
      chain = (ground (arith, v.word), omega arith, omega (arith, v.numbers));
      bytes = refl;
      small = (omega arith, tt);
      isn = refl;
      ack = refl;
      window = refl;
    };
    sound = record {
      numbers = ground (arith, v.numbers);
      acked = omega (arith, v.acked, v.numbers);
      window = v.window;
      word = v.word;
    };
    shrinks = λ _. ground (arith, v.numbers);
    stuck = λ e. cc;
  }

  left : length (made s).0.stream.buffer + size s ≡ length s.stream.buffer
  left = omega (arith, ap length (made-buffer s), length-drop (size s) s.stream.buffer, size-le s)

  pub made-IsSound : 0 < s.next_seqno → IsSound (made s).0
  made-IsSound pos = record {
    numbers =
        ground (arith, left, made-next s open_ v, length-made s open_ v, v.numbers, size-le s);
    acked = omega (arith, made-same s, made-next s open_ v, v.acked);
    window = omega (arith, made-same s, v.window);
    word = subst (λ (i : WrappingInt32). i.raw_value < 2 ^ 32) (sym (made-same s).2) v.word;
  }

  made-bytes : s.stream.buffer ≡ (made s).1.payload ++ (made s).0.stream.buffer
  made-bytes =
      sym (take-append-drop (size s) s.stream.buffer)
      ∙ ap₂ ◌++◌ (sym (made-payload s)) (sym (made-buffer s))

  room_left :
      ltb (bytes_in_flight s) (usable_window s) ≡ true
      → payload_size s (usable_window s) ≡ 0
      → buffer_size s.stream ≡ 0
  unfolding payload_size
  room_left room empty = ground (arith, v.window, v.acked, v.numbers)

  not_ended :
      ltb (bytes_in_flight s) (usable_window s) ≡ true
      → (made s).0.set_fin_flag ≡ false
      → payload_size s (usable_window s) ≡ 0
      → input_ended s.stream ≡ false
  not_ended room unfinished empty =
      let nothing : length (made s).0.stream.buffer ≡ 0 =
        omega (arith, left, room_left room empty) in
      ground (
        arith,
        made-fin s,
        made-ended s,
        ap eof (made-stream s),
        is_empty_of_length (made s).0.stream.buffer nothing,
        v.numbers,
      )

  nothing-IsDone :
      (made s).0.set_fin_flag ≡ false → payload_size s (usable_window s) ≡ 0 → IsDone (made s).0
  nothing-IsDone unfinished empty = elim (Bool-cases (ltb (bytes_in_flight s) (usable_window s))) [
    | inl room ↦ inr (
        inr (
          omega (arith, left, room_left room empty),
          made-ended s ∙ not_ended room unfinished empty,
        ))
    | inr full ↦
        inr (inl (ground (arith, made-same s, made-next s open_ v, length-made s open_ v, full)))
  ]

  nothing-Step :
      0 < s.next_seqno
      → (made s).0.set_fin_flag ≡ false
      → payload_size s (usable_window s) ≡ 0
      → Step s ((made s).0, false)
  unfolding payloads
  nothing-Step pos unfinished empty = record {
    segs = [];
    sends = record {
      out = (made-same s).0 ∙ sym (append-nil _);
      kept = (made-same s).1 ∙ sym (append-nil _);
      chain = ground (arith, made-next s open_ v, length-made s open_ v);
      bytes = sym (made-buffer s ∙ ap (λ (k : ℕ). drop k s.stream.buffer) empty);
      small = tt;
      isn = (made-same s).2;
      ack = (made-same s).3;
      window = (made-same s).4;
    };
    sound = made-IsSound pos;
    shrinks = λ e. cc;
    stuck = λ _. nothing-IsDone unfinished empty;
  }

  payload-Step :
      0 < s.next_seqno
      → ((made s).0.set_fin_flag ≡ true) ⊎ (0 < payload_size s (usable_window s))
      → Step s (enqueue (made s).0 (made s).1, true)
  unfolding enqueue payloads
  payload-Step pos sent = record {
    segs = (made s).1 ∷ [];
    sends = record {
      out = ap (λ zs. zs ++ ((made s).1 ∷ [])) (made-same s).0;
      kept = ap (λ zs. zs ++ ((made s).1 ∷ [])) (made-same s).1;
      chain = (made-seqno s, ground (arith, length-made s open_ v), sym (made-next s open_ v));
      bytes = made-bytes ∙ ap (λ zs. zs ++ (made s).0.stream.buffer) (sym (append-nil _));
      small = (omega (arith, length-payload s, size-le s), tt);
      isn = (made-same s).2;
      ack = (made-same s).3;
      window = (made-same s).4;
    };
    sound =
        let m = made-IsSound pos in
        record { numbers = m.numbers; acked = m.acked; window = m.window; word = m.word };
    shrinks = λ _. ground (arith, left, made-next s open_ v, length-made s open_ v, v.numbers);
    stuck = λ e. cc;
  }

pub fill_once-Step : (s : TcpSender) → IsSound s → Step s (fill_once s)
unfolding opened enqueue
fill_once-Step s v =
    fill_once_cases (Step s) s
      (λ fin. record {
        segs = [];
        sends = Sends-none s;
        sound = v;
        shrinks = λ e. cc;
        stuck = λ _. inl fin;
      })
      (λ e z. syn-Step s v e z) (λ e pos unfinished empty. nothing-Step s v e pos unfinished empty)
      (λ e pos sent. payload-Step s v e pos sent)
