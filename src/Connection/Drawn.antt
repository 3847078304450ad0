-- ===== src/Connection/Drawn.antt =====
-- A sender (libsponge/tcp_sender.cc) whose queues hold pieces of the text `s` that an application writes.
use cs144_2021_sponge.Prelude.{
  ℕ, ◌+◌, ◌-◌, ◌^◌, ◌≤◌, ◌<◌, ◌≡◌, refl, sym, subst, true, false, List, [], ◌∷◌, length, take,
  arith, All, All-weaken,
}
use cs144_2021_sponge.ByteStream.{is_empty}
use cs144_2021_sponge.ByteStream.Spec.{History}
use cs144_2021_sponge.ByteStream.Refine.{Represents, length-buffer}
use cs144_2021_sponge.Wrapping.{WrappingInt32, wrap}
use cs144_2021_sponge.Segment.{TcpSegment, flag_length}
use cs144_2021_sponge.Config.{max_payload_size}
use cs144_2021_sponge.Reassembler.Invariant.{Fragment}
use cs144_2021_sponge.Sender.{TcpSender}
use cs144_2021_sponge.Sender.Sending.{IsSound}

pub empty-length : (xs : List ℕ) → is_empty xs ≡ true → length xs ≡ 0
empty-length [] h = refl
empty-length (x ∷ xs) h = cc

module _ (s : List ℕ) (isn : WrappingInt32) where
  -- A piece of `s` under its number; the numbers that it occupies lie below `upto`.
  pub record Good (upto : ℕ) (seg : TcpSegment) : Type 0 where
    pub index : ℕ
    pub piece : Fragment s seg.payload index seg.header.fin
    pub numbered : seg.header.seqno ≡ wrap (index + 1 - flag_length seg.header.syn) isn
    pub first : seg.header.syn ≡ true → index ≡ 0
    pub small : length seg.payload ≤ max_payload_size
    pub sent : index + 1 + length seg.payload + flag_length seg.header.fin ≤ upto

  pub Good-later : {m n : ℕ} (seg : TcpSegment) → m ≤ n → Good m seg → Good n seg
  Good-later seg le g = record {
    index = g.index;
    piece = g.piece;
    numbered = g.numbered;
    first = g.first;
    small = g.small;
    sent = omega (arith, g.sent);
  }

  pub AllGood-later :
      {m n : ℕ} (segs : List TcpSegment) → m ≤ n → All (Good m) segs → All (Good n) segs
  AllGood-later segs le = All-weaken segs (λ seg g. Good-later seg le g)

  pub record Drawn (cap : ℕ) (x : TcpSender) : Type 0 where
    pub history : History
    pub represents : Represents cap x.stream history
    pub prefix : history.accepted ≡ take (length history.accepted) s
    pub inside : length history.accepted ≤ length s
    pub last : history.has_ended ≡ true → length history.accepted ≡ length s
    pub isn_kept : x.isn ≡ isn
    pub window : x.receiver_window_size < 2 ^ 16
    pub acked : x.receiver_ack ≤ x.next_seqno
    pub position : 0 < x.next_seqno → x.next_seqno ≡ history.taken + 1 + flag_length x.set_fin_flag
    pub unopened : x.next_seqno ≡ 0 → (history.taken ≡ 0) × (x.set_fin_flag ≡ false)
    pub finished : x.set_fin_flag ≡ true → history.taken ≡ length s
    pub out : All (Good x.next_seqno) x.segments_out
    pub queue : All (Good x.next_seqno) x.outstanding_segments

  module _ (short : length s + 2 < 2 ^ 31) (word : isn.raw_value < 2 ^ 32) {cap : ℕ}
      (small : cap < 2 ^ 64) where
    pub next_below : {x : TcpSender} → Drawn cap x → x.next_seqno ≤ length s + 2
    next_below {x} d = ground (arith, d.position, d.represents.within, d.inside)

    pub Drawn-IsSound : {x : TcpSender} → Drawn cap x → IsSound x
    Drawn-IsSound {x} d = record {
      numbers = ground (
        arith,
        d.position,
        d.unopened,
        d.represents.within,
        d.inside,
        length-buffer small d.represents,
      );
      acked = d.acked;
      window = d.window;
      word = subst (λ (i : WrappingInt32). i.raw_value < 2 ^ 32) (sym d.isn_kept) word;
    }
