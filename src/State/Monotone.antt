-- ===== src/State/Monotone.antt =====
-- Whatever arrives, `push_substring` of libsponge/stream_reassembler.cc neither sets nor clears the error
-- of its output, and never reopens it.
use cs144_2021_sponge.Prelude.{
  ℕ, zero, suc, ◌+◌, ◌≤◌, ◌≡◌, refl, sym, ◌∙◌, subst, Bool, true, false, ◌&&◌, ◌||◌, List, [], ◌∷◌,
  ◌++◌, ltb, leb, ◌==◌, arith, inl, inr, Bool-cases, length, get_or, add64,
}
use cs144_2021_sponge.ByteStream.{ByteStream, write, end_input, bytes_written, bytes_read}
use cs144_2021_sponge.Segment.{flag_length}
use cs144_2021_sponge.Reassembler.{
  StreamReassembler, put, copy_loop, front, shift, drain_loop, record_eof, check_eof, write_out,
  assemble, store, push_substring,
}

pub record Keeps (o o' : ByteStream) : Type 0 where
  pub error : o'.error_flag ≡ o.error_flag
  pub ended : flag_length o.end_write ≤ flag_length o'.end_write

pub Keeps-refl : (o : ByteStream) → Keeps o o
Keeps-refl o = record { error = refl; ended = omega arith }

pub Keeps-trans : {o p q : ByteStream} → Keeps o p → Keeps p q → Keeps o q
Keeps-trans k l = record { error = l.error ∙ k.error; ended = omega (arith, k.ended, l.ended) }

output_kept : {o p : ByteStream} → p ≡ o → Keeps o p
output_kept {o} {p} e = subst (λ q. Keeps o q) (sym e) (Keeps-refl o)

pub most_one : (b : Bool) → flag_length b ≤ 1
most_one true = omega arith
most_one false = omega arith

record_eof-output :
    (r : StreamReassembler) (end : ℕ) (eof : Bool) → (record_eof r end eof).output ≡ r.output
unfolding record_eof
record_eof-output r end true = refl
record_eof-output r end false = refl

check_eof-Keeps : (r : StreamReassembler) → Keeps r.output (check_eof r).output
unfolding check_eof end_input
check_eof-Keeps r = elim (Bool-cases (r.eof_flag && (r.eof_index == bytes_written r.output))) [
  | inl e ↦ rw e (record { error = refl; ended = most_one r.output.end_write })
  | inr e ↦ rw e (Keeps-refl r.output)
]

put-output : (r : StreamReassembler) (k byte : ℕ) → (put r k byte).output ≡ r.output
unfolding put
put-output r k byte = elim (Bool-cases (get_or r.bitmap k false)) [
  | inl e ↦ rw e refl
  | inr e ↦ rw e refl
]

copy_loop-output :
    (rounds i dst src : ℕ) (text : List ℕ) (r : StreamReassembler)
    → (copy_loop rounds i dst src text r).output ≡ r.output
unfolding copy_loop
copy_loop-output zero i dst src text r = refl
copy_loop-output (suc rounds) i dst src text r =
    copy_loop-output rounds (i + 1) dst src text (put r (add64 i dst) (get_or text (add64 i src) 0))
    ∙ put-output r _ _

store-output :
    (r : StreamReassembler) (text : List ℕ) (index start end low high : ℕ)
    → (store r text index start end low high).output ≡ r.output
unfolding store
store-output r text index start end low high = elim (Bool-cases (leb low start)) [
  | inl e ↦ rw e (copy_loop-output _ 0 _ _ text r)
  | inr e ↦ elim (Bool-cases (ltb low end)) [
    | inl e' ↦ rw (e, e') (copy_loop-output _ 0 _ _ text r)
    | inr e' ↦ rw (e, e') refl
  ]
]

drain_loop-output :
    (fuel : ℕ) (r : StreamReassembler) (str : List ℕ) → (drain_loop fuel r str).0.output ≡ r.output
unfolding drain_loop
drain_loop-output zero r str = refl
drain_loop-output (suc fuel) r str = elim (Bool-cases (front r.bitmap false)) [
  | inl e ↦ rw e (
      drain_loop-output fuel (record r { buffer = shift r.buffer 0; bitmap = shift r.bitmap false })
        (str ++ (front r.buffer 0 ∷ [])))
  | inr e ↦ rw e refl
]

write_out-Keeps : (r : StreamReassembler) (str : List ℕ) → Keeps r.output (write_out r str).output
unfolding write_out write
write_out-Keeps r str = elim (Bool-cases (ltb 0 (length str))) [
  | inl e ↦ rw e (record { error = refl; ended = omega arith })
  | inr e ↦ rw e (Keeps-refl r.output)
]

assemble-Keeps : (r : StreamReassembler) → Keeps r.output (assemble r).output
unfolding assemble
assemble-Keeps r =
    let d = drain_loop (length r.bitmap + 1) r [] in
    Keeps-trans (output_kept (drain_loop-output (length r.bitmap + 1) r []))
      (Keeps-trans (write_out-Keeps d.0 d.1) (check_eof-Keeps (write_out d.0 d.1)))

pub push-Keeps :
    (r : StreamReassembler) (text : List ℕ) (index : ℕ) (eof : Bool)
    → Keeps r.output (push_substring r text index eof).output
unfolding push_substring
push-Keeps r text index eof =
    let end = add64 index (length text) in
    let marked = record_eof r end eof in
    let checked =
      Keeps-trans (output_kept (record_eof-output r end eof)) (check_eof-Keeps marked) in
    elim (Bool-cases
      (leb end (bytes_written r.output) || leb (add64 (bytes_read r.output) r.capacity) index)) [
        | inl out ↦ rw out checked
        | inr in_ ↦ rw in_ (
            Keeps-trans checked (
              Keeps-trans (output_kept (store-output _ text index index end _ _))
                (assemble-Keeps _)))
      ]
