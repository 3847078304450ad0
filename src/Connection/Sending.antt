-- ===== src/Connection/Sending.antt =====
-- The sender's side of a connection (libsponge/tcp_sender.cc): what every call keeps.
use cs144_2021_sponge.Prelude.{
  ℕ, ◌+◌, ◌-◌, ◌^◌, ◌≤◌, ◌<◌, ◌≡◌, refl, sym, ap, ap₂, subst, ◌∙◌, true, some, List, ◌++◌, length,
  take, drop, arith, length-append, length-take, length-drop, take-add,
}
use cs144_2021_sponge.ByteStream.{ByteStream, write, end_input, bytes_written}
use cs144_2021_sponge.ByteStream.Spec as Spec
use cs144_2021_sponge.ByteStream.Spec.{History, held, start}
use cs144_2021_sponge.ByteStream.Refine.{
  Represents, write_refines, ended_Represents, new-Represents,
}
use cs144_2021_sponge.Wrapping.{WrappingInt32}
use cs144_2021_sponge.Sender.{TcpSender, new, fill_window}
use cs144_2021_sponge.Sender.Chain.{Chain, Chain-append, Chain-moved}
use cs144_2021_sponge.Sender.Fill.{fill_window-Filled}
use cs144_2021_sponge.Sender.Acks.{Tracks}
use cs144_2021_sponge.Connection.{write_next}
use cs144_2021_sponge.Connection.Drawn.{Drawn, next_below, Drawn-IsSound}
use cs144_2021_sponge.Connection.Filling.{fill_window-Drawn}
use cs144_2021_sponge.Connection.Kept.{take-take_self}

-- The segments in the queues are pieces of `s`, and those that wait for an acknowledgment are numbered
-- without gap up to the next number.
pub record Sends (s : List ℕ) (isn : WrappingInt32) (cap : ℕ) (x : TcpSender) : Type 0 where
  pub drawn : Drawn s isn cap x
  pub chain : Chain x.isn x.receiver_ack x.outstanding_segments x.next_seqno

module _ {s : List ℕ} {isn : WrappingInt32} (short : length s + 2 < 2 ^ 31)
    (word : isn.raw_value < 2 ^ 32) {cap : ℕ} (small : cap < 2 ^ 64) where
  pub new-Sends : (timeout : ℕ) → Sends s isn cap (new cap timeout (some isn) isn)
  unfolding new start
  new-Sends timeout = record {
    drawn = record {
      history = start;
      represents = new-Represents cap;
      prefix = refl;
      inside = omega arith;
      last = λ e. cc;
      isn_kept = refl;
      window = omega arith;
      acked = omega arith;
      position = λ p. absurd (omega arith);
      unopened = λ _. (refl, refl);
      finished = λ e. cc;
      out = tt;
      queue = tt;
    };
    chain = refl;
  }

  module _ {x : TcpSender} (v : Sends s isn cap x) where
    d : Drawn s isn cap x
    d = v.drawn

    pub Sends-Tracks : Tracks x
    Sends-Tracks = record {
      chain = v.chain;
      flight = omega (arith, next_below s isn short word small v.drawn, short);
      numbers = omega (arith, next_below s isn short word small v.drawn, short);
      word = subst (λ (i : WrappingInt32). i.raw_value < 2 ^ 32) (sym v.drawn.isn_kept) word;
    }

    -- Another stream, with a history that grows in `s`.
    restreamed :
        (b : ByteStream) (h : History)
        → Represents cap b h
        → h.taken ≡ v.drawn.history.taken
        → h.accepted ≡ take (length h.accepted) s
        → length h.accepted ≤ length s
        → (h.has_ended ≡ true → length h.accepted ≡ length s)
        → Sends s isn cap (record x { stream = b })
    restreamed b h r e prefix inside last = record {
      drawn = record {
        history = h;
        represents = r;
        prefix = prefix;
        inside = inside;
        last = last;
        isn_kept = v.drawn.isn_kept;
        window = v.drawn.window;
        acked = v.drawn.acked;
        position = λ p. omega (arith, v.drawn.position p, e);
        unopened = λ z. (e ∙ (v.drawn.unopened z).0, (v.drawn.unopened z).1);
        finished = λ f. e ∙ v.drawn.finished f;
        out = v.drawn.out;
        queue = v.drawn.queue;
      };
      chain = v.chain;
    }

    written-exact : bytes_written x.stream ≡ length v.drawn.history.accepted
    written-exact = omega (arith, v.drawn.represents.written, v.drawn.inside, short)

    pub write_next-Sends : (n : ℕ) → Sends s isn cap (write_next s x n)
    unfolding Spec.call
    write_next-Sends n =
        let old = v.drawn.history in
        let more : List ℕ = take (cap - held old) (take n (drop (length old.accepted) s)) in
        let e : more ≡ take (length more) (drop (length old.accepted) s) =
          take-take_self (cap - held old) n (drop (length old.accepted) s) in
        let len : length (old.accepted ++ more) ≡ length old.accepted + length more =
          length-append old.accepted more in
        let bound : length more ≤ length s - length old.accepted = omega (
          arith,
          length-take (cap - held old) (take n (drop (length old.accepted) s)),
          length-take n (drop (length old.accepted) s),
          length-drop (length old.accepted) s,
        ) in
        subst
          (λ (k : ℕ).
            Sends s isn cap (record x { stream = (write x.stream (take n (drop k s))).0 }))
          (sym written-exact)
          (restreamed _ _
            (write_refines small v.drawn.represents (take n (drop (length old.accepted) s))).0 refl
            (ap₂ ◌++◌ v.drawn.prefix e
              ∙ sym (take-add (length old.accepted) (length more) s)
              ∙ ap (λ (k : ℕ). take k s) (sym len))
            (omega (arith, len, bound, v.drawn.inside))
            (λ f. omega (arith, len, bound, v.drawn.last f)))

    pub end_input-Sends :
        bytes_written x.stream ≡ length s
        → Sends s isn cap (record x { stream = end_input x.stream })
    end_input-Sends e =
        restreamed (end_input x.stream) (record v.drawn.history { has_ended = true })
          (ended_Represents small v.drawn.represents) refl v.drawn.prefix v.drawn.inside
          (λ _. omega (arith, written-exact, e))

    pub fill_window-Sends : Sends s isn cap (fill_window x)
    fill_window-Sends =
        let f = fill_window-Filled x (Drawn-IsSound s isn short word small v.drawn) in
        record {
          drawn = fill_window-Drawn s isn short word small x v.drawn;
          chain = Chain-moved (sym f.sends.isn) (sym f.sends.ack) (sym f.sends.kept) refl (
              Chain-append x.isn x.receiver_ack x.outstanding_segments f.segs x.next_seqno
                (fill_window x).next_seqno v.chain f.sends.chain);
        }
