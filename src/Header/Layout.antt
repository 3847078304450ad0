-- ===== src/Header/Layout.antt =====
-- The bytes of a header as the diagram in libsponge/tcp_helpers/tcp_header.hh draws them, and that
-- `serialize` of tcp_header.cc writes them.
use cs144_2021_sponge.Prelude.{
  ℕ, ◌-◌, ◌*◌, ◌%◌, ◌^◌, ◌≤◌, ◌<◌, ◌≡◌, refl, sym, ap, Bool, true, false, some, List, [], ◌∷◌, ◌+◌,
  ◌++◌, ltb, length, length-replicate, take_all, replicate, arith,
}
use cs144_2021_sponge.Segment.{TcpHeader, flag_length}
use cs144_2021_sponge.Parser.Laws.{
  bytes1, bytes2, bytes4, put_u8-append, put_u16-append, put_u32-append, not_less,
}
use cs144_2021_sponge.Header.{bit, flag_byte, resize, serialize}

-- The fields fit their places on the wire, and the data offset counts the fixed part at least.
pub record IsWire (h : TcpHeader) : Type 0 where
  pub sport : h.sport < 2 ^ 16
  pub dport : h.dport < 2 ^ 16
  pub seqno : h.seqno.raw_value < 2 ^ 32
  pub ackno : h.ackno.raw_value < 2 ^ 32
  pub long_enough : 5 ≤ h.doff
  pub doff : h.doff < 16
  pub win : h.win < 2 ^ 16
  pub cksum : h.cksum < 2 ^ 16
  pub uptr : h.uptr < 2 ^ 16

-- A number from its binary digits, the most significant one first.
unfoldable pub digit : Bool → ℕ
digit true = 1
digit false = 0

unfoldable pub binary : ℕ → List Bool → ℕ
binary n [] = n
binary n (b ∷ bs) = binary (2 * n + digit b) bs

-- The byte of flags in the diagram: two reserved bits, URG, ACK, PSH, RST, SYN and FIN.
unfoldable pub flag_bits : TcpHeader → ℕ
flag_bits h = binary 0 (false ∷ false ∷ h.urg ∷ h.ack ∷ h.psh ∷ h.rst ∷ h.syn ∷ h.fin ∷ [])

-- The words of the header in their order, and the room for options, which is filled with zeros.
unfoldable pub wire : TcpHeader → List ℕ
wire h =
    bytes2 h.sport
    ++ (bytes2 h.dport
        ++ (bytes4 h.seqno.raw_value
            ++ (bytes4 h.ackno.raw_value
                ++ (bytes1 (h.doff * 16)
                    ++ (bytes1 (flag_bits h)
                        ++ (bytes2 h.win
                            ++ (bytes2 h.cksum
                                ++ (bytes2 h.uptr ++ replicate (4 * h.doff - 20) 0))))))))

pub weigh : (b : Bool) (value : ℕ) → bit b value ≡ flag_length b * value
weigh true value = omega arith
weigh false value = omega arith

pub flag_length-le : (b : Bool) → flag_length b ≤ 1
flag_length-le true = omega arith
flag_length-le false = omega arith

bit-digit : (b : Bool) (value : ℕ) → bit b value ≡ digit b * value
unfolding digit
bit-digit true value = omega arith
bit-digit false value = omega arith

-- The byte that the code puts together is that of the diagram.
pub flag_bits-flag_byte : (h : TcpHeader) → flag_bits h ≡ flag_byte h
unfolding flag_bits flag_byte binary digit
flag_bits-flag_byte h = omega (
  arith,
  bit-digit h.urg 32,
  bit-digit h.ack 16,
  bit-digit h.psh 8,
  bit-digit h.rst 4,
  bit-digit h.syn 2,
  bit-digit h.fin 1,
)

pub flag_byte-small : (h : TcpHeader) → flag_byte h < 2 ^ 8
unfolding flag_byte
flag_byte-small h = ground arith

resize_pad : (s : List ℕ) (n m : ℕ) → length s ≡ m → m ≤ n → resize s n ≡ s ++ replicate (n - m) 0
unfolding resize
resize_pad s n m e h = rw (e, take_all n s (omega arith)) refl

-- `serialize` writes exactly the layout of the diagram: the fields most significant byte first, each flag
-- at its own bit, and zeros up to the advertised length, which is 4 bytes for each unit of the data offset.
-- The fields must fit their places, and the data offset must count the fixed part at least.
pub serialize-wire :
    (h : TcpHeader) → IsWire h → (serialize h ≡ some (wire h)) × (length (wire h) ≡ 4 * h.doff)
unfolding serialize wire
serialize-wire h v =
    let doff : h.doff * 2 ^ 4 % 2 ^ 8 ≡ h.doff * 16 = omega (arith, v.doff) in
    let long : ltb h.doff 5 ≡ false = not_less h.doff 5 v.long_enough in
    rw
      (
        long,
        doff,
        put_u16-append _ h.uptr v.uptr,
        put_u16-append _ h.cksum v.cksum,
        put_u16-append _ h.win v.win,
        put_u8-append _ (flag_byte h) (flag_byte-small h),
        sym (flag_bits-flag_byte h),
        put_u8-append _ (h.doff * 16) (omega (arith, v.doff)),
        put_u32-append _ h.ackno.raw_value v.ackno,
        put_u32-append _ h.seqno.raw_value v.seqno,
        put_u16-append _ h.dport v.dport,
        put_u16-append _ h.sport v.sport,
      )
      (
        ap some (resize_pad _ (4 * h.doff) 20 refl (omega (arith, v.long_enough))),
        omega (arith, v.long_enough, length-replicate {A = ℕ} (4 * h.doff - 20) 0),
      )
