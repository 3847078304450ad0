-- ===== src/Reassembler/Window.antt =====
-- The window of libsponge/stream_reassembler.cc: slot `i` holds byte `base + i` of the stream that
-- the peer sends, and the copying loops mark the slots that they fill.
use cs144_2021_sponge.Prelude.{
  ℕ, ◌+◌, ◌^◌, ◌≤◌, ◌<◌, ◌≡◌, refl, sym, ap, ◌∙◌, Bool, true, false, ◌||◌, List, ◌==◌, length,
  get_or, set, arith, Bool-cases, inl, inr, length-set, get_or-set_self, get_or-set_ne,
}
use cs144_2021_sponge.ByteStream.{ByteStream}
use cs144_2021_sponge.Reassembler.{StreamReassembler, put}
use cs144_2021_sponge.Reassembler.Bitmap.{marked, marked-set, marked-le-length}

-- Slot `i` holds the right byte, below the limit and inside the stream.
abbrev pub Holds : List ℕ → ℕ → ℕ → StreamReassembler → ℕ → Type 0
Holds s base limit r i =
    (base + i < limit) × (base + i < length s) × (get_or r.buffer i 0 ≡ get_or s (base + i) 0)

-- The window of the stream `s` from position `base` on; no byte at `limit` or above is kept.
pub record Window (s : List ℕ) (base limit : ℕ) (r : StreamReassembler) : Type 0 where
  pub slots : length r.buffer ≡ r.capacity
  pub marks : length r.bitmap ≡ r.capacity
  pub reach : limit ≤ base + r.capacity
  pub holds : (i : ℕ) → get_or r.bitmap i false ≡ true → Holds s base limit r i

-- What the window operations leave alone.
pub record Frame (r r' : StreamReassembler) : Type 0 where
  pub output : r'.output ≡ r.output
  pub capacity : r'.capacity ≡ r.capacity
  pub eof_flag : r'.eof_flag ≡ r.eof_flag
  pub eof_index : r'.eof_index ≡ r.eof_index

pub Frame-refl : (r : StreamReassembler) → Frame r r
Frame-refl r = record { output = refl; capacity = refl; eof_flag = refl; eof_index = refl }

pub Frame-trans : {r t u : StreamReassembler} → Frame r t → Frame t u → Frame r u
Frame-trans f g = record {
  output = g.output ∙ f.output;
  capacity = g.capacity ∙ f.capacity;
  eof_flag = g.eof_flag ∙ f.eof_flag;
  eof_index = g.eof_index ∙ f.eof_index;
}

pub put-Frame : (r : StreamReassembler) (k byte : ℕ) → Frame r (put r k byte)
unfolding put
put-Frame r k byte = ground arith

module _ {s : List ℕ} {base limit : ℕ} (r : StreamReassembler) (k byte : ℕ)
    (w : Window s base limit r) (below : base + k < limit) where
  put-slots :
      (length (put r k byte).buffer ≡ r.capacity) × (length (put r k byte).bitmap ≡ r.capacity)
  unfolding put
  put-slots =
      ground (arith, length-set r.buffer k byte, length-set r.bitmap k true, w.slots, w.marks)

  -- The mark at `k` is the only new one.
  pub put-bitmap :
      (j : ℕ) → get_or (put r k byte).bitmap j false ≡ (get_or r.bitmap j false || j == k)
  unfolding put
  put-bitmap j = elim (Bool-cases (get_or r.bitmap k false)) [
    | inl old ↦
        rw old (ground (arith, old, ap (λ (n : ℕ). get_or r.bitmap n false) {x = j} {y = k}))
    | inr new ↦ rw new (
        ground (
          arith,
          get_or-set_self r.bitmap k true false,
          get_or-set_ne r.bitmap k j true false,
          w.marks,
          w.reach,
        ))
  ]

  put-Holds :
      (i : ℕ)
      → base + k < length s
      → byte ≡ get_or s (base + k) 0
      → get_or (put r k byte).bitmap i false ≡ true
      → Holds s base limit (put r k byte) i
  unfolding put
  put-Holds i inside right = ground (
    arith,
    w.holds i,
    put-bitmap i,
    get_or-set_self r.buffer k byte 0,
    get_or-set_ne r.buffer k i byte 0,
    w.slots,
    w.reach,
  )

  pub put-Window :
      base + k < length s → byte ≡ get_or s (base + k) 0 → Window s base limit (put r k byte)
  put-Window inside right = record {
    slots = put-slots.0 ∙ sym (put-Frame r k byte).capacity;
    marks = put-slots.1 ∙ sym (put-Frame r k byte).capacity;
    reach = rw ((put-Frame r k byte).capacity) w.reach;
    holds = λ i h. put-Holds i inside right h;
  }

  -- The counter stays the number of marks.
  pub put-counted :
      r.capacity < 2 ^ 64
      → r.unassembled ≡ marked r.bitmap
      → (put r k byte).unassembled ≡ marked (put r k byte).bitmap
  unfolding put
  put-counted small counted = ground (
    arith,
    marked-set r.bitmap k,
    marked-le-length r.bitmap,
    marked-le-length (set r.bitmap k true),
    length-set r.bitmap k true,
    w.marks,
    w.reach,
  )

-- A window is about the two deques and the capacity only.
pub Window-kept :
    {s : List ℕ} {base limit : ℕ} {r : StreamReassembler} (output : ByteStream) (eof_flag : Bool)
    (eof_index unassembled : ℕ)
    → Window s base limit r
    → Window s base limit (record r {
      eof_flag = eof_flag;
      eof_index = eof_index;
      unassembled = unassembled;
      output = output;
    })
Window-kept output eof_flag eof_index unassembled w = record {
  slots = w.slots;
  marks = w.marks;
  reach = w.reach;
  holds = w.holds;
}

pub Window-moved :
    {s : List ℕ} {base base' limit limit' : ℕ} {r : StreamReassembler}
    → base ≡ base'
    → limit ≡ limit'
    → Window s base limit r
    → Window s base' limit' r
Window-moved e f w = rw (← e, ← f) w

-- Reading the output opens the window further.
pub Window-grown :
    {s : List ℕ} {base limit limit' : ℕ} {r : StreamReassembler}
    → limit ≤ limit'
    → limit' ≤ base + r.capacity
    → Window s base limit r
    → Window s base limit' r
Window-grown up reach w = record {
  slots = w.slots;
  marks = w.marks;
  reach = reach;
  holds = λ i h. let (a, b, c) = w.holds i h in (omega arith, b, c);
}
