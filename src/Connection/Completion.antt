-- ===== src/Connection/Completion.antt =====
-- From every state of a connection, the whole text can still get through.
use cs144_2021_sponge.Prelude.{
  ℕ, zero, suc, ◌+◌, ◌^◌, ◌≤◌, ◌<◌, ◌≡◌, refl, ap, ◌∙◌, true, List, [], ◌∷◌, length, ltb, arith,
  inl, inr, Bool-cases, take_all,
}
use cs144_2021_sponge.ByteStream.{is_empty, bytes_written, buffer_size, eof}
use cs144_2021_sponge.Wrapping.{WrappingInt32}
use cs144_2021_sponge.Segment.{TcpSegment}
use cs144_2021_sponge.Config.{max_payload_size}
use cs144_2021_sponge.Reassembler.Invariant.{counters}
use cs144_2021_sponge.Reassembler.Reading.{read_output-Reads}
use cs144_2021_sponge.Receiver.{stream_out}
use cs144_2021_sponge.Sender.{fill_window}
use cs144_2021_sponge.Sender.Chain.{Chain, Chain-occupied, occupied}
use cs144_2021_sponge.Sender.Fill.{fill_window-Filled}
use cs144_2021_sponge.Connection.{Net, start, fills, reads, Run, stay, then_, read_some}
use cs144_2021_sponge.Connection.Drawn.{Drawn-IsSound, next_below}
use cs144_2021_sponge.Connection.Receiving.{reached-known, reached-none, read_output-written}
use cs144_2021_sponge.Connection.Invariant.{Holds, start-Holds}
use cs144_2021_sponge.Connection.Steps.{Step-Holds, Run-Holds}
use cs144_2021_sponge.Connection.Refill.{prepare, fill_sends}
use cs144_2021_sponge.Connection.Progress.{Run-append, read_all, round}

-- The reader has the whole text and finds its end, and the sender keeps nothing.
abbrev pub Complete : List ℕ → Net → Type 0
Complete s m =
    (m.got ≡ s) × (eof (stream_out m.receiver) ≡ true) × (m.sender.outstanding_segments ≡ [])

Chain-empty :
    (i : WrappingInt32) (a b : ℕ) (segs : List TcpSegment) → Chain i a segs b → b ≤ a → segs ≡ []
unfolding occupied
Chain-empty i a b [] c h = refl
Chain-empty i a b (seg ∷ segs) c h =
    absurd (omega (arith, h, c.1, Chain-occupied i a (seg ∷ segs) b c))

module _ {s : List ℕ} {isn : WrappingInt32} (short : length s + 2 < 2 ^ 31)
    (word : isn.raw_value < 2 ^ 32) {cap : ℕ} (small : cap < 2 ^ 64) (positive : 0 < cap) {room : ℕ}
    (ample : max_payload_size ≤ room) where
  read_some-Holds :
      (n : Net) → Holds s isn cap room n → (k : ℕ) → Holds s isn cap room (read_some n k)
  read_some-Holds n v k = Step-Holds short word small n v (reads k)

  -- All is acknowledged: what is left is to read.
  finish :
      (n : Net)
      → Holds s isn cap room n
      → length s + 2 ≤ n.sender.receiver_ack
      → (m : Net) × Run s n m × Complete s m
  finish n v all =
      let k = buffer_size (stream_out n.receiver) in
      let i = v.hears.inv in
      let w = (read_some-Holds n v k) in
      let facts : (bytes_written (stream_out n.receiver) ≡ length s)
          × (n.receiver.reassembler.eof_flag ≡ true) =
        elim v.hears.synced [
          | inl e ↦ absurd (omega (arith, all, v.behind, reached-none s n.receiver e))
          | inr p ↦ ground (
            arith,
            all,
            v.behind,
            reached-known s n.receiver p.0,
            counters s i.filled,
            i.filled.inside,
          )
        ] in
      let (count, empty) = read_all n.receiver.reassembler i in
      let d = read_output-Reads n.receiver.reassembler i k in
      (
        read_some n k,
        then_ stay (reads k),
        (
          w.order ∙ take_all _ s (omega (arith, count, facts.0)),
          ground (
            arith,
            ap is_empty empty,
            d.inv.ended,
            d.flag,
            facts,
            read_output-written n.receiver v.hears k,
          ),
          Chain-empty n.sender.isn n.sender.receiver_ack n.sender.next_seqno
              n.sender.outstanding_segments v.sends.chain
              (omega (arith, all, next_below s isn short word small v.sends.drawn)),
        ),
      )

  progress :
      (n : Net)
      → Holds s isn cap room n
      → n.sender.receiver_ack < length s + 2
      → (m : Net) × Run s n m × (n.sender.receiver_ack < m.sender.receiver_ack)
  progress n v left = begin_with n.sender.outstanding_segments refl
    where
      begin_with :
          (segs : List TcpSegment)
          → n.sender.outstanding_segments ≡ segs
          → (m : Net) × Run s n m × (n.sender.receiver_ack < m.sender.receiver_ack)
      begin_with (seg ∷ segs) e = round short word small ample n v seg segs e
      begin_with [] e =
          let (m, run, ready, same, ack) = prepare short word small positive n v in
          let w = Run-Holds short word small v run in
          let f =
            fill_window-Filled m.sender (Drawn-IsSound s isn short word small w.sends.drawn) in
          let filled : Net = record m { sender = fill_window m.sender } in
          let (seg, segs, sent) =
            fill_sends short word small positive m w ready (same ∙ e) (omega (arith, left, ack)) f
              f.segs refl in
          let (o, run', more) =
            round short word small ample filled (Step-Holds short word small m w fills) seg segs
              sent in
          (o, Run-append (then_ run fills) run', omega (arith, more, ack, f.sends.ack))

  complete :
      (fuel : ℕ) (n : Net)
      → Holds s isn cap room n
      → length s + 2 ≤ n.sender.receiver_ack + fuel
      → (m : Net) × Run s n m × Complete s m
  complete zero n v h = finish n v (omega (arith, h))
  complete (suc fuel) n v h = elim (Bool-cases (ltb n.sender.receiver_ack (length s + 2))) [
    | inl left ↦
        let (m, run, more) = progress n v (ground (arith, left)) in
        let (o, run', done) =
          complete fuel m (Run-Holds short word small v run) (omega (arith, h, more)) in
        (o, Run-append run run', done)
    | inr no_more ↦ finish n v (ground (arith, no_more))
  ]

-- The network loses all that it has been given so far.
abbrev pub all_lost : Net → Net
all_lost n = record n { wire = []; acks = [] }

all_lost-Holds :
    {s : List ℕ} {isn : WrappingInt32} {cap room : ℕ} (n : Net)
    → Holds s isn cap room n
    → Holds s isn cap room (all_lost n)
all_lost-Holds n v = record {
  sends = v.sends;
  rings = v.rings;
  wire = tt;
  hears = v.hears;
  acks = tt;
  behind = v.behind;
  room_kept = v.room_kept;
  order = v.order;
}

-- Where the sender's stream has some capacity and the receiver's at least that of one payload: after any
-- sequence of calls, where an empty segment is sent between the SYN and the FIN only, even if nothing that the network was given so far will ever arrive, neither a segment
-- nor an acknowledgment, the calls can go on so that the reader gets exactly the text that the writer writes
-- and finds its end, and the sender keeps nothing. The text is shorter than 2 ^ 31 - 2 bytes.
pub delivery_possible :
    (s : List ℕ) (isn : WrappingInt32) (send_capacity receive_capacity timeout : ℕ)
    → length s + 2 < 2 ^ 31
    → isn.raw_value < 2 ^ 32
    → send_capacity < 2 ^ 64
    → length s + receive_capacity < 2 ^ 64
    → timeout < 2 ^ 64
    → 0 < send_capacity
    → max_payload_size ≤ receive_capacity
    → {n : Net} → Run s (start send_capacity receive_capacity timeout isn) n
    → (m : Net) × Run s (all_lost n) m × Complete s m
delivery_possible s isn send_capacity receive_capacity timeout short word small fits time positive
      ample {n} run =
    complete short word small positive ample (length s + 2) (all_lost n)
      (all_lost-Holds n (
        Run-Holds short word small (start-Holds short word small receive_capacity timeout fits time)
          run))
      (omega arith)
