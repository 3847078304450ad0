-- ===== src/Reassembler/Drain.antt =====
-- The draining loop of `push_substring` in libsponge/stream_reassembler.cc: it ends by its own test,
-- takes out the contiguous front of the window, and loses no byte behind it.
use cs144_2021_sponge.Prelude.{
  ℕ, zero, suc, ◌+◌, ◌-◌, ◌≤◌, ◌<◌, ◌≡◌, refl, sym, ap, ◌∙◌, Bool, true, false, ◌||◌, List, [], ◌∷◌,
  ◌++◌, append-nil, append_assoc, ltb, length, get_or, take, take-suc, arith, Bool-cases, inl, inr,
  get_or_out,
}
use cs144_2021_sponge.Reassembler.{StreamReassembler, drain_loop, shift, front}
use cs144_2021_sponge.Reassembler.Bitmap.{marked, marked-shift, length-shift, get_or-shift}
use cs144_2021_sponge.Reassembler.Window.{Window, Frame, Frame-refl, Frame-trans}

-- Byte `j` of the stream has been assembled or waits in the window that starts at `base`.
abbrev pub known_at : ℕ → List Bool → ℕ → Bool
known_at base bitmap j = ltb j base || get_or bitmap (j - base) false

module _ (s : List ℕ) (limit : ℕ) where
  pub record Drained (base : ℕ) (r : StreamReassembler) (str : List ℕ)
      (out : StreamReassembler × List ℕ) : Type 0 where
    pub reached : ℕ
    pub chunk : List ℕ
    pub text : out.1 ≡ str ++ chunk
    pub advance : take reached s ≡ take base s ++ chunk
    pub grows : base ≤ reached
    pub in_window : reached ≤ limit
    pub in_stream : reached ≤ length s
    pub window : Window s reached limit out.0
    pub frame : Frame r out.0
    pub counter : out.0.unassembled ≡ r.unassembled
    pub marks : marked r.bitmap ≡ marked out.0.bitmap + (reached - base)
    pub settled : front out.0.bitmap false ≡ false
    pub known : (j : ℕ) → known_at reached out.0.bitmap j ≡ known_at base r.bitmap j

  -- One round: the window moves up by the byte at its front.
  abbrev shifted : StreamReassembler → StreamReassembler
  shifted r = record r { buffer = shift r.buffer 0; bitmap = shift r.bitmap false }

  module _ (base : ℕ) (r : StreamReassembler) (w : Window s base limit r)
      (full : front r.bitmap false ≡ true) where
    has_slot : 0 < length r.bitmap
    has_slot = ground (arith, get_or_out r.bitmap 0 false)

    shifted-Frame : Frame r (shifted r)
    shifted-Frame = record { output = refl; capacity = refl; eof_flag = refl; eof_index = refl }

    shifted-Window : Window s (base + 1) limit (shifted r)
    shifted-Window = record {
      slots = omega (arith, length-shift r.buffer 0, has_slot, w.slots, w.marks);
      marks = omega (arith, length-shift r.bitmap false has_slot, w.marks);
      reach = omega (arith, w.reach);
      holds = λ i h.
          let up : base + 1 + i ≡ base + suc i = omega arith in
          rw up (
            rw (get_or-shift r.buffer i 0)
              (w.holds (suc i) (sym (get_or-shift r.bitmap i false) ∙ h)));
    }

    shifted-known :
        (j : ℕ) → known_at (base + 1) (shift r.bitmap false) j ≡ known_at base r.bitmap j
    shifted-known j = ground (arith, get_or-shift r.bitmap (j - (base + 1)) false)

    front-byte : take (base + 1) s ≡ take base s ++ (front r.buffer 0 ∷ [])
    front-byte =
        let here = w.holds 0 full in
        let zero_off : base + 0 ≡ base = omega arith in
        take-suc base s 0 (omega (arith, here.1))
        ∙ ap (λ (c : ℕ). take base s ++ (c ∷ []))
            (sym (here.2 ∙ ap (λ (k : ℕ). get_or s k 0) zero_off))

    Drained_next :
        (str : List ℕ) {out : StreamReassembler × List ℕ}
        → Drained (base + 1) (shifted r) (str ++ (front r.buffer 0 ∷ [])) out
        → Drained base r str out
    Drained_next str d = record {
      reached = d.reached;
      chunk = front r.buffer 0 ∷ d.chunk;
      text = d.text ∙ append_assoc str (front r.buffer 0 ∷ []) d.chunk;
      advance =
          d.advance
          ∙ ap (λ xs. xs ++ d.chunk) front-byte
          ∙ append_assoc (take base s) (front r.buffer 0 ∷ []) d.chunk;
      grows = omega (arith, d.grows);
      in_window = d.in_window;
      in_stream = d.in_stream;
      window = d.window;
      frame = Frame-trans (shifted-Frame) d.frame;
      counter = d.counter;
      marks = omega (arith, d.marks, d.grows, marked-shift r.bitmap full);
      settled = d.settled;
      known = λ j. d.known j ∙ shifted-known j;
    }

  pub drain_loop-Drained :
      (fuel base : ℕ) (r : StreamReassembler) (str : List ℕ)
      → marked r.bitmap < fuel
      → base ≤ limit
      → base ≤ length s
      → Window s base limit r
      → Drained base r str (drain_loop fuel r str)
  unfolding drain_loop
  drain_loop-Drained zero base r str h le inside w = absurd (omega arith)
  drain_loop-Drained (suc fuel) base r str h le inside w =
      elim (Bool-cases (front r.bitmap false)) [
        | inl full ↦ rw full (
            Drained_next base r w full str (
              drain_loop-Drained fuel (base + 1) (shifted r) _
                (omega (arith, marked-shift r.bitmap full)) (omega (arith, w.holds 0 full))
                (omega (arith, w.holds 0 full)) (shifted-Window base r w full)))
        | inr clear ↦ rw clear (record {
          reached = base;
          chunk = [];
          text = sym (append-nil str);
          advance = sym (append-nil (take base s));
          grows = omega arith;
          in_window = le;
          in_stream = inside;
          window = w;
          frame = Frame-refl r;
          counter = refl;
          marks = omega arith;
          settled = clear;
          known = λ j. refl;
        })
      ]
