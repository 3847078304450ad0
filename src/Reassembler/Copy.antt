-- ===== src/Reassembler/Copy.antt =====
-- The two copying loops of `push_substring` in libsponge/stream_reassembler.cc, from the right byte
-- for each slot to the window with all of them marked.
use cs144_2021_sponge.Prelude.{
  ℕ, zero, suc, ◌+◌, ◌^◌, ◌≤◌, ◌<◌, ◌≡◌, false, ◌&&◌, ◌||◌, List, ltb, leb, length, get_or, add64,
  arith,
}
use cs144_2021_sponge.Reassembler.{StreamReassembler, put, copy_loop}
use cs144_2021_sponge.Reassembler.Bitmap.{marked}
use cs144_2021_sponge.Reassembler.Window.{
  Window, Frame, Frame-refl, Frame-trans, put-Frame, put-bitmap, put-Window, put-counted,
}

module _ (s : List ℕ) (base limit dst src : ℕ) (text : List ℕ) where
  -- Byte `t + src` of the text belongs to slot `t + dst`.
  abbrev pub Agrees : Type 0
  Agrees = (t : ℕ) → t + src < length text → get_or text (t + src) 0 ≡ get_or s (base + (t + dst)) 0

  -- `n` rounds from `i` on lie in the window, in the stream and in the text.
  pub record InRange (n i : ℕ) : Type 0 where
    pub in_window : base + (i + dst + n) ≤ limit
    pub in_stream : base + (i + dst + n) ≤ length s
    pub in_text : i + n + src ≤ length text

  pub record Copied (n i : ℕ) (r r' : StreamReassembler) : Type 0 where
    pub window : Window s base limit r'
    pub counted : r'.unassembled ≡ marked r'.bitmap
    pub frame : Frame r r'
    pub bitmap :
        (j : ℕ)
        → get_or r'.bitmap j false
          ≡ (get_or r.bitmap j false || (leb (i + dst) j && ltb j (i + dst + n)))

  Copied-next :
      (n i : ℕ) {r t u : StreamReassembler}
      → Copied 1 i r t
      → Copied n (i + 1) t u
      → Copied (suc n) i r u
  Copied-next n i first rest = record {
    window = rest.window;
    counted = rest.counted;
    frame = Frame-trans first.frame rest.frame;
    bitmap = λ j. ground (arith, first.bitmap j, rest.bitmap j);
  }

  module _ (agrees : Agrees) (limit_word : limit < 2 ^ 64) (text_word : length text < 2 ^ 64) where
    -- One round of the loop.
    put-Copied :
        (n i : ℕ) (r : StreamReassembler)
        → r.capacity < 2 ^ 64
        → Window s base limit r
        → r.unassembled ≡ marked r.bitmap
        → InRange (suc n) i
        → Copied 1 i r (put r (add64 i dst) (get_or text (add64 i src) 0))
    put-Copied n i r small w c range = record {
      window = put-Window r slot byte w below (omega (arith, slot_exact, range.in_stream)) right;
      counted = put-counted r slot byte w below small c;
      frame = put-Frame r slot byte;
      bitmap = λ j. ground (arith, put-bitmap r slot byte w below j, slot_exact);
    }
      where
        slot : ℕ
        slot = add64 i dst

        byte : ℕ
        byte = get_or text (add64 i src) 0

        slot_exact : slot ≡ i + dst
        slot_exact = omega (arith, range.in_window)

        below : base + slot < limit
        below = omega (arith, slot_exact, range.in_window)

        right : byte ≡ get_or s (base + slot) 0
        right =
            let from : add64 i src ≡ i + src = omega (arith, range.in_text) in
            rw (slot_exact, from) (agrees i (omega (arith, range.in_text)))

    pub copy_loop-Copied :
        (n i : ℕ) (r : StreamReassembler)
        → r.capacity < 2 ^ 64
        → Window s base limit r
        → r.unassembled ≡ marked r.bitmap
        → InRange n i
        → Copied n i r (copy_loop n i dst src text r)
    unfolding copy_loop
    copy_loop-Copied zero i r small w c range = record {
      window = w;
      counted = c;
      frame = Frame-refl r;
      bitmap = λ j. ground arith;
    }
    copy_loop-Copied (suc n) i r small w c range =
        let first = put-Copied n i r small w c range in
        Copied-next n i first (
          copy_loop-Copied n (i + 1) _ (omega (arith, first.frame.capacity)) first.window
            first.counted
            (record {
              in_window = omega (arith, range.in_window);
              in_stream = omega (arith, range.in_stream);
              in_text = omega (arith, range.in_text);
            }))
