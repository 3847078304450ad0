-- ===== src/Reassembler/Store.antt =====
-- Cases 2 and 3 of `push_substring` in libsponge/stream_reassembler.cc: the part of a substring that
-- lies in the window is marked, whichever side of the window the substring overlaps.
use cs144_2021_sponge.Prelude.{
  ℕ, ◌+◌, ◌-◌, ◌≤◌, ◌<◌, ◌≡◌, ap, ◌∙◌, Bool, true, false, ◌&&◌, ◌||◌, List, ltb, leb, length,
  get_or, min, max, sub64, arith, Bool-cases, inl, inr,
}
use cs144_2021_sponge.Reassembler.{StreamReassembler, copy_loop, store}
use cs144_2021_sponge.Reassembler.Bitmap.{marked}
use cs144_2021_sponge.Reassembler.Window.{Window, Frame}
use cs144_2021_sponge.Reassembler.Copy.{Agrees, Copied, copy_loop-Copied}
use cs144_2021_sponge.Reassembler.Invariant.{Fragment, Filled}

-- The first byte position behind both the substring and the window.
abbrev pub bound : (s text : List ℕ) (index : ℕ) (r : StreamReassembler) → Filled s r → ℕ
bound s text index r f = min (index + length text) (f.history.taken + r.capacity)

pub record Stored (s text : List ℕ) (index : ℕ) (r : StreamReassembler) (f : Filled s r)
    (r' : StreamReassembler) : Type 0 where
  pub window : Window s (length f.history.accepted) (f.history.taken + r.capacity) r'
  pub counted : r'.unassembled ≡ marked r'.bitmap
  pub frame : Frame r r'
  pub bitmap :
      (j : ℕ)
      → get_or r'.bitmap j false ≡ (
          get_or r.bitmap j false
          || (leb index (length f.history.accepted + j)
              && ltb (length f.history.accepted + j) (bound s text index r f)))

module _ {s text : List ℕ} {index : ℕ} {eof : Bool} {r : StreamReassembler} (f : Filled s r)
    (piece : Fragment s text index eof) (fresh : length f.history.accepted < index + length text)
    (near : index < f.history.taken + r.capacity) where
  abbrev base : ℕ
  base = length f.history.accepted

  abbrev limit : ℕ
  limit = f.history.taken + r.capacity

  abbrev end : ℕ
  end = index + length text

  right_part :
      base ≤ index
      → Stored s text index r f
          (copy_loop (sub64 (min end limit) index) 0 (sub64 index base) 0 text r)
  right_part h =
      rw (rounds, dst)
        (record {
          window = copied.window;
          counted = copied.counted;
          frame = copied.frame;
          bitmap = λ j. copied.bitmap j ∙ ap (λ x. get_or r.bitmap j false || x) (ground arith);
        })
    where
      rounds : sub64 (min end limit) index ≡ min end limit - index
      rounds = omega (arith, piece.inside, f.small)

      dst : sub64 index base ≡ index - base
      dst = omega (arith, piece.inside, f.small)

      agrees : Agrees s base limit (index - base) 0 text
      agrees t ht =
          let at : index + (t + 0) ≡ base + (t + (index - base)) = omega arith in
          piece.right (t + 0) ht ∙ ap (λ (k : ℕ). get_or s k 0) at

      copied :
          Copied s base limit
            (index - base)
            0
            text
            (min end limit - index)
            0
            r
            (copy_loop (min end limit - index) 0 (index - base) 0 text r)
      copied =
          copy_loop-Copied s base limit (index - base) 0 text agrees
            (omega (arith, f.represents.within, f.inside, f.small))
            (omega (arith, piece.inside, f.small)) (min end limit - index) 0 r
            (omega (arith, f.small)) f.window f.counted
            (record {
              in_window = omega arith;
              in_stream = omega (arith, piece.inside);
              in_text = omega arith;
            })

  left_part :
      index < base
      → Stored s text index r f
          (copy_loop (sub64 (min end limit) (max index base)) 0 0 (sub64 base index) text r)
  left_part h =
      rw (rounds, src)
        (record {
          window = copied.window;
          counted = copied.counted;
          frame = copied.frame;
          bitmap = λ j. copied.bitmap j ∙ ap (λ x. get_or r.bitmap j false || x) (ground arith);
        })
    where
      window_up : base ≤ limit
      window_up = omega (arith, f.represents.fits, f.represents.within)

      rounds : sub64 (min end limit) (max index base) ≡ min end limit - base
      rounds = omega (arith, window_up, piece.inside, f.small)

      src : sub64 base index ≡ base - index
      src = omega (arith, f.inside, f.small)

      agrees : Agrees s base limit 0 (base - index) text
      agrees t ht =
          let at : index + (t + (base - index)) ≡ base + (t + 0) = omega arith in
          piece.right (t + (base - index)) ht ∙ ap (λ (k : ℕ). get_or s k 0) at

      copied :
          Copied s base limit 0
            (base - index)
            text
            (min end limit - base)
            0
            r
            (copy_loop (min end limit - base) 0 0 (base - index) text r)
      copied =
          copy_loop-Copied s base limit 0 (base - index) text agrees
            (omega (arith, f.represents.within, f.inside, f.small))
            (omega (arith, piece.inside, f.small)) (min end limit - base) 0 r
            (omega (arith, f.small)) f.window f.counted
            (record {
              in_window = omega (arith, window_up);
              in_stream = omega (arith, piece.inside);
              in_text = omega arith;
            })

  pub store-Stored : Stored s text index r f (store r text index index end base limit)
  unfolding store
  store-Stored = elim (Bool-cases (leb base index)) [
    | inl after ↦ rw after (right_part (ground arith))
    | inr before ↦
        let over : ltb base end ≡ true = ground arith in
        rw (before, over) (left_part (ground arith))
  ]
