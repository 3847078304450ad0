-- ===== src/ByteStream/Tests.antt =====
-- Runs of the byte stream on small inputs, and the instances of its theorems.
use cs144_2021_sponge.Prelude.{◌<◌, ◌≡◌, refl, true, false, List, [], ◌∷◌, arith}
use cs144_2021_sponge.ByteStream.Spec
use cs144_2021_sponge.ByteStream.Spec.{Call, writes, peeks, pops, reads, ends, fails, start}
use cs144_2021_sponge.ByteStream.Refine.{run, run_refines}
use cs144_2021_sponge.ByteStream.Laws.{eof-write}
use cs144_2021_sponge.ByteStream.{ByteStream, new, write, write_loop, eof}

-- Two bytes held, room for one more, and the input ended.
abbrev half_read : ByteStream
half_read = record {
  buffer = 7 ∷ 8 ∷ [];
  capacity = 3;
  end_write = true;
  end_read = false;
  written_bytes = 5;
  read_bytes = 3;
  error_flag = false;
}

abbrev drained : ByteStream
drained = record half_read { buffer = []; read_bytes = 5 }

abbrev script : List Call
script = writes (1 ∷ 2 ∷ 3 ∷ 4 ∷ []) ∷ peeks 9 ∷ reads 2 ∷ writes (5 ∷ []) ∷ pops 3 ∷ ends ∷ []

write_stops_at_capacity : (write half_read (9 ∷ 10 ∷ [])).0.buffer ≡ 7 ∷ 8 ∷ 9 ∷ []
unfolding write write_loop
write_stops_at_capacity = refl

run_refines_example : run (new 3) script ≡ Spec.run 3 start script
run_refines_example = run_refines 3 (omega arith) script

eof-write_example : (eof (write drained (9 ∷ [])).0 ≡ false) × (0 < (write drained (9 ∷ [])).1)
eof-write_example = eof-write drained (9 ∷ []) refl (omega arith) (λ e. cc)
