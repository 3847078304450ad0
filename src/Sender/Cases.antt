-- ===== src/Sender/Cases.antt =====
-- The branches of `fill_window` in libsponge/tcp_sender.cc, as a rule for proofs.
use cs144_2021_sponge.Prelude.{
  ℕ, zero, suc, ◌<◌, ◌≡◌, ◌⊎◌, sym, subst, Bool, true, false, ◌&&◌, not, ◌==◌, Bool-cases, inl, inr,
  arith,
}
use cs144_2021_sponge.Segment.{TcpSegment}
use cs144_2021_sponge.Sender.{
  TcpSender, make_syn, make_payload, payload_size, add_fin, enqueue, fill_once, fill_loop,
  usable_window, window_not_full,
}

-- The state and the segment that the payload branch has made.
abbrev pub made : TcpSender → TcpSender × TcpSegment
made s = add_fin (usable_window s) (make_payload s (usable_window s))

-- To prove something of one call of `fill_window`, prove it of its four exits.
pub fill_once_cases {ℓ} :
    (P : TcpSender × Bool → Type ℓ) (s : TcpSender)
    → (s.set_fin_flag ≡ true → P (s, false))
    → (s.set_fin_flag ≡ false → s.next_seqno ≡ 0 → P (enqueue (make_syn s).0 (make_syn s).1, true))
    → (s.set_fin_flag ≡ false
        → 0 < s.next_seqno
        → (made s).0.set_fin_flag ≡ false
        → payload_size s (usable_window s) ≡ 0
        → P ((made s).0, false))
    → (s.set_fin_flag ≡ false
        → 0 < s.next_seqno
        → ((made s).0.set_fin_flag ≡ true) ⊎ (0 < payload_size s (usable_window s))
        → P (enqueue (made s).0 (made s).1, true))
    → P (fill_once s)
unfolding fill_once
fill_once_cases P s finished syn nothing payload = elim (Bool-cases s.set_fin_flag) [
  | inl e ↦ subst P (sym (at_fin e)) (finished e)
  | inr e ↦ elim (Bool-cases (s.next_seqno == 0)) [
    | inl z ↦ subst P (sym (at_syn e z)) (syn e (ground arith))
    | inr n ↦
        elim (Bool-cases (not (made s).0.set_fin_flag && payload_size s (usable_window s) == 0)) [
          | inl h ↦
              subst P (sym (at_nothing e n h))
                (nothing e (ground arith) (ground arith) (ground arith))
          | inr h ↦ subst P (sym (at_payload e n h)) (payload e (ground arith) (sent h))
        ]
  ]
]
  where
    at_fin : s.set_fin_flag ≡ true → fill_once s ≡ (s, false)
    at_fin e = rw (e, fill_once)

    at_syn :
        s.set_fin_flag ≡ false
        → (s.next_seqno == 0) ≡ true
        → fill_once s ≡ (enqueue (make_syn s).0 (make_syn s).1, true)
    at_syn e z = ground arith

    at_nothing :
        s.set_fin_flag ≡ false
        → (s.next_seqno == 0) ≡ false
        → (not (made s).0.set_fin_flag && payload_size s (usable_window s) == 0) ≡ true
        → fill_once s ≡ ((made s).0, false)
    at_nothing e n h = ground arith

    at_payload :
        s.set_fin_flag ≡ false
        → (s.next_seqno == 0) ≡ false
        → (not (made s).0.set_fin_flag && payload_size s (usable_window s) == 0) ≡ false
        → fill_once s ≡ (enqueue (made s).0 (made s).1, true)
    at_payload e n h = ground arith

    sent :
        (not (made s).0.set_fin_flag && payload_size s (usable_window s) == 0) ≡ false
        → ((made s).0.set_fin_flag ≡ true) ⊎ (0 < payload_size s (usable_window s))
    sent h = ground arith

-- What one call keeps, all of them keep.
pub fill_loop_induction {ℓ} :
    (P : TcpSender → Type ℓ)
    → ((s : TcpSender) → P s → P (fill_once s).0)
    → (fuel : ℕ) (s : TcpSender) → P s
    → P (fill_loop fuel s)
unfolding fill_loop
fill_loop_induction P keeps zero s p = p
fill_loop_induction P keeps (suc fuel) s p =
    let p' = keeps s p in
    let rest = fill_loop_induction P keeps fuel (fill_once s).0 p' in
    elim (Bool-cases ((fill_once s).1 && window_not_full (fill_once s).0 (usable_window s))) [
      | inl more ↦ rw more rest
      | inr done ↦ rw done p'
    ]
