-- ===== src/ByteStream/Spec.antt =====
-- What a byte stream promises: the bytes accepted so far, the number of them taken out, and two
-- flags. The calls of libsponge/byte_stream.hh act on that history; nothing is stored or moved.
use cs144_2021_sponge.Prelude.{
  ℕ, ◌+◌, ◌-◌, ◌%◌, ◌^◌, min, Bool, true, false, ◌&&◌, List, [], ◌∷◌, ◌++◌, ltb, ◌==◌,
  if◌then◌else◌, length, take, drop,
}

-- The calls that a client makes, and what each one answers.
pub data Call : Type 0 where
  writes : List ℕ → Call
  peeks pops reads : ℕ → Call
  ends fails : Call

pub data Reply : Type 0 where
  count : ℕ → Reply
  bytes : List ℕ → Reply
  done : Reply

-- What the accessors say of a stream.
pub record Report : Type 0 where
  pub size : ℕ
  pub room : ℕ
  pub is_drained : Bool
  pub has_ended : Bool
  pub at_eof : Bool
  pub has_error : Bool
  pub total_written : ℕ
  pub total_read : ℕ

pub record History : Type 0 where
  pub accepted : List ℕ
  pub taken : ℕ
  pub has_ended : Bool
  pub has_error : Bool

unfoldable pub start : History
start = record { accepted = []; taken = 0; has_ended = false; has_error = false }

abbrev pub held : History → ℕ
held h = length h.accepted - h.taken

module _ (cap : ℕ) where
  unfoldable pub call : History → Call → History × Reply
  call h (writes xs) = (
    record h { accepted = h.accepted ++ take (cap - held h) xs },
    count (min (cap - held h) (length xs)),
  )
  call h (peeks n) = (h, bytes (take n (drop h.taken h.accepted)))
  call h (pops n) = (
    if ltb (held h) n then record h { has_error = true } else record h { taken = h.taken + n },
    done,
  )
  call h (reads n) =
      if ltb (held h) n
      then (record h { has_error = true }, bytes [])
      else (record h { taken = h.taken + n }, bytes (take n (drop h.taken h.accepted)))
  call h ends = (record h { has_ended = true }, done)
  call h fails = (record h { has_error = true }, done)

  unfoldable pub report : History → Report
  report h = record {
    size = held h;
    room = cap - held h;
    is_drained = held h == 0;
    has_ended = h.has_ended;
    at_eof = (held h == 0) && h.has_ended;
    has_error = h.has_error;
    total_written = length h.accepted % 2 ^ 64;
    total_read = h.taken % 2 ^ 64;
  }

  unfoldable pub run : History → List Call → List (Reply × Report)
  run h [] = []
  run h (c ∷ cs) = let (h', r) = call h c in (r, report h') ∷ run h' cs
