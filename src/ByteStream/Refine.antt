-- ===== src/ByteStream/Refine.antt =====
-- libsponge/byte_stream.cc implements the history of `Spec`: for every sequence of calls the answers
-- and everything that the accessors report are those of the history.
use cs144_2021_sponge.Prelude.{
  ℕ, ◌+◌, ◌-◌, ◌%◌, ◌^◌, ◌≤◌, ◌<◌, ◌≡◌, refl, sym, ap, ap₂, ◌∙◌, true, List, [], ◌∷◌, ◌++◌, ltb,
  ◌==◌, length, take, drop, min, arith, Bool-cases, inl, inr, length-append, subst, take_all,
  length-take, length-drop, drop-append, drop-drop, take-min, sub64, add64,
}
use cs144_2021_sponge.ByteStream.Spec
use cs144_2021_sponge.ByteStream.Spec.{
  Call, writes, peeks, pops, reads, ends, fails, Reply, count, bytes, done, Report, History, start,
  held,
}
use cs144_2021_sponge.ByteStream.Loops.{
  write_loop-append, peek_loop-append, pop_loop-drop, read_loop-split,
}
use cs144_2021_sponge.ByteStream.{
  ByteStream, new, write, peek_output, set_error, pop_output, read, end_input, input_ended, error,
  buffer_size, buffer_empty, eof, bytes_written, bytes_read, remaining_capacity, is_empty,
}

unfoldable pub call : ByteStream → Call → ByteStream × Reply
call b (writes xs) = let (b', n) = write b xs in (b', count n)
call b (peeks n) = (b, bytes (peek_output b n))
call b (pops n) = (pop_output b n, done)
call b (reads n) = let (b', out) = read b n in (b', bytes out)
call b ends = (end_input b, done)
call b fails = (set_error b, done)

unfoldable pub report : ByteStream → Report
report b = record {
  size = buffer_size b;
  room = remaining_capacity b;
  is_drained = buffer_empty b;
  has_ended = input_ended b;
  at_eof = eof b;
  has_error = error b;
  total_written = bytes_written b;
  total_read = bytes_read b;
}

unfoldable pub run : ByteStream → List Call → List (Reply × Report)
run b [] = []
run b (c ∷ cs) = let (b', r) = call b c in (r, report b') ∷ run b' cs

-- The stream holds the bytes that the history accepted and did not give out.
pub record Represents (cap : ℕ) (b : ByteStream) (h : History) : Type 0 where
  pub within : h.taken ≤ length h.accepted
  pub fits : held h ≤ cap
  pub contents : b.buffer ≡ drop h.taken h.accepted
  pub capacity : b.capacity ≡ cap
  pub ended : b.end_write ≡ h.has_ended
  pub failed : b.error_flag ≡ h.has_error
  pub written : b.written_bytes ≡ length h.accepted % 2 ^ 64
  pub given : b.read_bytes ≡ h.taken % 2 ^ 64

pub new-Represents : (cap : ℕ) → Represents cap (new cap) start
unfolding new start
new-Represents cap = ground arith

module _ {cap : ℕ} (small : cap < 2 ^ 64) {b : ByteStream} {h : History}
    (r : Represents cap b h) where
  pub length-buffer : length b.buffer ≡ held h
  length-buffer = omega (arith, ap length r.contents, length-drop h.taken h.accepted)

  pub room-exact : sub64 b.capacity (length b.buffer) ≡ cap - held h
  room-exact = omega (arith, length-buffer, r.capacity, r.fits)

  is_empty-length : (xs : List ℕ) → is_empty xs ≡ (length xs == 0)
  is_empty-length [] = refl
  is_empty-length (x ∷ xs) = ground arith

  drained : is_empty b.buffer ≡ (held h == 0)
  drained = is_empty-length b.buffer ∙ ap (λ n. n == 0) length-buffer

  pub report_refines : report b ≡ Spec.report cap h
  unfolding report Spec.report
  report_refines = ground (arith, length-buffer, room-exact, drained)

  pub write_refines :
      (xs : List ℕ)
      → Represents cap (write b xs).0 (Spec.call cap h (writes xs)).0
        × ((write b xs).1 ≡ min (cap - held h) (length xs))
  unfolding write Spec.call
  write_refines xs = (
    record {
      within = omega (arith, r.within, length-append h.accepted taken_now);
      fits = omega (arith, r.fits, added);
      contents =
          write_loop-append _ xs b.buffer
          ∙ rw room-exact (ap₂ ◌++◌ r.contents (take-min (cap - held h) xs))
          ∙ sym (drop-append h.taken h.accepted taken_now r.within);
      capacity = r.capacity;
      ended = r.ended;
      failed = r.failed;
      written = omega (arith, added, r.written, room-exact);
      given = r.given;
    },
    ap (λ n. min n (length xs)) room-exact,
  )
    where
      taken_now : List ℕ
      taken_now = take (cap - held h) xs

      added : length (h.accepted ++ taken_now) ≡ length h.accepted + min (cap - held h) (length xs)
      added = omega (arith, length-append h.accepted taken_now, length-take (cap - held h) xs)

  -- A text that fits is accepted whole.
  pub write-Represents :
      (xs : List ℕ)
      → length xs ≤ cap - held h
      → Represents cap (write b xs).0 (record h { accepted = h.accepted ++ xs })
  unfolding Spec.call
  write-Represents xs fits =
      subst
        (λ (ys : List ℕ). Represents cap (write b xs).0 (record h { accepted = h.accepted ++ ys }))
        (take_all (cap - held h) xs fits) (write_refines xs).0

  -- Taking `n` bytes that are there moves the boundary of the history.
  pub taken_Represents :
      (n : ℕ)
      → n ≤ held h
      → Represents cap
          (record b { buffer = drop n b.buffer; read_bytes = add64 b.read_bytes n })
          (record h { taken = h.taken + n })
  taken_Represents n le = record {
    within = omega (arith, r.within);
    fits = omega (arith, r.fits);
    contents = ap (drop n) r.contents ∙ drop-drop h.taken n h.accepted;
    capacity = r.capacity;
    ended = r.ended;
    failed = r.failed;
    written = r.written;
    given = omega (arith, r.given);
  }

  pub failed_Represents : Represents cap (set_error b) (record h { has_error = true })
  unfolding set_error
  failed_Represents = record {
    within = r.within;
    fits = r.fits;
    contents = r.contents;
    capacity = r.capacity;
    ended = r.ended;
    failed = refl;
    written = r.written;
    given = r.given;
  }

  pub pop_refines : (n : ℕ) → Represents cap (pop_output b n) (Spec.call cap h (pops n)).0
  unfolding pop_output Spec.call
  pop_refines n = elim (Bool-cases (ltb (held h) n)) [
    | inl over ↦ rw (length-buffer, over) failed_Represents
    | inr fits ↦
        rw (length-buffer, fits, pop_loop-drop n b.buffer) (taken_Represents n (ground arith))
  ]

  pub read_refines :
      (n : ℕ)
      → Represents cap (read b n).0 (Spec.call cap h (reads n)).0
        × (bytes (read b n).1 ≡ (Spec.call cap h (reads n)).1)
  unfolding read Spec.call
  read_refines n = elim (Bool-cases (ltb (held h) n)) [
    | inl over ↦ rw (length-buffer, over) (failed_Represents, refl)
    | inr fits ↦
        rw (length-buffer, fits, read_loop-split n b.buffer [])
          (taken_Represents n (ground arith), ap (λ xs. bytes (take n xs)) r.contents)
  ]

  peek_refines : (n : ℕ) → peek_output b n ≡ take n (drop h.taken h.accepted)
  unfolding peek_output
  peek_refines n =
      peek_loop-append (min n (length b.buffer)) b.buffer []
      ∙ take-min n b.buffer
      ∙ ap (take n) r.contents

  pub ended_Represents : Represents cap (end_input b) (record h { has_ended = true })
  unfolding end_input
  ended_Represents = record {
    within = r.within;
    fits = r.fits;
    contents = r.contents;
    capacity = r.capacity;
    ended = refl;
    failed = r.failed;
    written = r.written;
    given = r.given;
  }

  pub call_refines :
      (c : Call)
      → Represents cap (call b c).0 (Spec.call cap h c).0 × ((call b c).1 ≡ (Spec.call cap h c).1)
  unfolding call Spec.call
  call_refines (writes xs) = let (w, n) = write_refines xs in (w, ap count n)
  call_refines (peeks n) = (r, ap bytes (peek_refines n))
  call_refines (pops n) = (pop_refines n, refl)
  call_refines (reads n) = read_refines n
  call_refines ends = (ended_Represents, refl)
  call_refines fails = (failed_Represents, refl)

run-Represents :
    {cap : ℕ}
    → cap < 2 ^ 64
    → (cs : List Call) {b : ByteStream} {h : History} → Represents cap b h
    → run b cs ≡ Spec.run cap h cs
unfolding run Spec.run
run-Represents small [] r = refl
run-Represents small (c ∷ cs) r =
    let (r', e) = call_refines small r c in
    ap₂ ◌∷◌ (ap₂ (λ x y. (x, y)) e (report_refines small r')) (run-Represents small cs r')

-- For every capacity below 2 ^ 64 and every sequence of calls on a new stream, the replies and the
-- reports after each call are those of the history: bytes come out in the order in which they were
-- accepted, `write` accepts exactly what the capacity leaves room for, `pop_output` and `read` of
-- more bytes than are held set the error flag and take none, and the byte counts are kept modulo
-- 2 ^ 64.
pub run_refines :
    (cap : ℕ) → cap < 2 ^ 64 → (cs : List Call) → run (new cap) cs ≡ Spec.run cap start cs
run_refines cap small cs = run-Represents small cs (new-Represents cap)
