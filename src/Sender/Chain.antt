-- ===== src/Sender/Chain.antt =====
-- Sequences of segments of libsponge/tcp_sender.cc that number a stretch of the sequence space
-- without a gap.
use cs144_2021_sponge.Prelude.{
  ℕ, ◌+◌, ◌≤◌, ◌<◌, ◌≡◌, refl, sym, ap, subst, ◌∙◌, List, [], ◌∷◌, ◌++◌, append_assoc, length,
  arith,
}
use cs144_2021_sponge.Wrapping.{WrappingInt32, wrap}
use cs144_2021_sponge.Segment.{TcpSegment, length_in_sequence_space}
use cs144_2021_sponge.Config.{max_payload_size}

-- The segments occupy the absolute sequence numbers from `a` up to `b`, each at least one, in order.
abbrev pub Chain : WrappingInt32 → ℕ → List TcpSegment → ℕ → Type 0
Chain isn a [] b = a ≡ b
Chain isn a (seg ∷ segs) b =
    (seg.header.seqno ≡ wrap a isn)
    × (0 < length_in_sequence_space seg)
    × Chain isn (a + length_in_sequence_space seg) segs b

-- No payload is longer than a datagram allows.
abbrev pub AllSmall : List TcpSegment → Type 0
AllSmall [] = Unit {0}
AllSmall (seg ∷ segs) = (length seg.payload ≤ max_payload_size) × AllSmall segs

unfoldable pub payloads : List TcpSegment → List ℕ
payloads [] = []
payloads (seg ∷ segs) = seg.payload ++ payloads segs

unfoldable pub occupied : List TcpSegment → ℕ
occupied [] = 0
occupied (seg ∷ segs) = length_in_sequence_space seg + occupied segs

pub Chain-append :
    (isn : WrappingInt32) (a : ℕ) (xs ys : List TcpSegment) (b c : ℕ)
    → Chain isn a xs b
    → Chain isn b ys c
    → Chain isn a (xs ++ ys) c
Chain-append isn a [] ys b c p q = rw p q
Chain-append isn a (x ∷ xs) ys b c p q =
    (p.0, p.1, Chain-append isn (a + length_in_sequence_space x) xs ys b c p.2 q)

pub Chain-occupied :
    (isn : WrappingInt32) (a : ℕ) (xs : List TcpSegment) (b : ℕ)
    → Chain isn a xs b
    → a + occupied xs ≡ b
unfolding occupied
Chain-occupied isn a [] b p = omega arith
Chain-occupied isn a (x ∷ xs) b p =
    omega (arith, Chain-occupied isn (a + length_in_sequence_space x) xs b p.2)

pub AllSmall-append : (xs ys : List TcpSegment) → AllSmall xs → AllSmall ys → AllSmall (xs ++ ys)
AllSmall-append [] ys p q = q
AllSmall-append (x ∷ xs) ys p q = (p.0, AllSmall-append xs ys p.1 q)

pub payloads-append : (xs ys : List TcpSegment) → payloads (xs ++ ys) ≡ payloads xs ++ payloads ys
unfolding payloads
payloads-append [] ys = refl
payloads-append (x ∷ xs) ys =
    ap (λ zs. x.payload ++ zs) (payloads-append xs ys)
    ∙ sym (append_assoc x.payload (payloads xs) (payloads ys))

pub Chain-moved :
    {i i' : WrappingInt32} {a a' : ℕ} {xs ys : List TcpSegment} {b b' : ℕ}
    → i ≡ i'
    → a ≡ a'
    → xs ≡ ys
    → b ≡ b'
    → Chain i a xs b
    → Chain i' a' ys b'
Chain-moved {i} {i'} {a} {a'} {xs} {ys} {b} {b'} e f g h c =
    subst (λ k. Chain i' a' ys k) h
      (subst (λ zs. Chain i' a' zs b) g
        (subst (λ (k : ℕ). Chain i' k xs b) f (subst (λ j. Chain j a xs b) e c)))
