-- ===== src/Reassembler/Tests.antt =====
-- Runs of the reassembler on small inputs, and the instances of its theorems.
use cs144_2021_sponge.Prelude.{
  ℕ, ◌+◌, ◌≤◌, ◌<◌, ◌≡◌, refl, true, false, List, [], ◌∷◌, ◌++◌, length, take, arith,
}
use cs144_2021_sponge.Reassembler.Bitmap.{marked}
use cs144_2021_sponge.ByteStream as Stream
use cs144_2021_sponge.ByteStream.{bytes_read, bytes_written, input_ended, buffer_size}
use cs144_2021_sponge.Reassembler.{
  new, put, copy_loop, drain_loop, record_eof, check_eof, write_out, assemble, store,
  push_substring, read_output, unassembled_bytes,
}
use cs144_2021_sponge.Reassembler.Invariant.{Fragment, Inv, new-Inv}
use cs144_2021_sponge.Reassembler.Contract.{slice-Fragment}
use cs144_2021_sponge.Reassembler.Deliver.{Learns, push-Learns}
use cs144_2021_sponge.Reassembler.Runs.{
  Event, arrives, consumes, AllPieces, run, covered, has_last, run_in_order, run_complete,
  stays_within,
}

abbrev stream : List ℕ
stream = 10 ∷ 11 ∷ 12 ∷ 13 ∷ []

-- Out of order, overlapping, with a read between.
abbrev events : List Event
events =
    arrives (12 ∷ 13 ∷ []) 2 true
    ∷ arrives (10 ∷ []) 0 false
    ∷ consumes 1
    ∷ arrives (10 ∷ 11 ∷ 12 ∷ []) 0 false
    ∷ []

run-events : (run (new 4) [] events).1 ++ (run (new 4) [] events).0.output.buffer ≡ stream
unfolding run new Stream.new push_substring check_eof record_eof store copy_loop put assemble
    drain_loop write_out read_output Stream.write Stream.write_loop Stream.read Stream.read_loop
    Stream.end_input
run-events = refl

abbrev tail_piece : Fragment stream (12 ∷ 13 ∷ []) 2 true
tail_piece = slice-Fragment stream (12 ∷ 13 ∷ []) 2 true (omega arith) refl (λ e. refl)

events-AllPieces : AllPieces stream events
events-AllPieces = (
  tail_piece,
  (
    slice-Fragment stream (10 ∷ []) 0 false (omega arith) refl (λ e. cc),
    (slice-Fragment stream (10 ∷ 11 ∷ 12 ∷ []) 0 false (omega arith) refl (λ e. cc), tt),
  ),
)

events-covered : (j : ℕ) → j < length stream → covered events j ≡ true
unfolding covered
events-covered j h = ground arith

push-Learns_example :
    Learns stream (12 ∷ 13 ∷ []) 2 true (new 4) (push_substring (new 4) (12 ∷ 13 ∷ []) 2 true)
push-Learns_example = push-Learns (new 4) (new-Inv stream 4 (omega arith)) tail_piece

run_in_order_example :
    let (r, got) = run (new 4) [] events in (got ≡ take (bytes_read r.output) stream) × Inv stream r
run_in_order_example = run_in_order stream 4 events (omega arith) events-AllPieces

run_complete_example :
    let (r, got) = run (new 4) [] events in
    (got ++ r.output.buffer ≡ stream) × (input_ended r.output ≡ true) × (unassembled_bytes r ≡ 0)
unfolding has_last
run_complete_example =
    run_complete stream 4 events (omega arith) (omega arith) events-AllPieces events-covered refl

stays_within_example :
    let r = (run (new 4) [] events).0 in
    (unassembled_bytes r ≡ marked r.bitmap)
    × (length r.bitmap ≡ 4)
    × (unassembled_bytes r + buffer_size r.output ≤ 4)
stays_within_example = stays_within stream 4 events (omega arith) events-AllPieces
