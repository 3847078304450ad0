-- ===== src/Parser/Laws.antt =====
-- What `NetParser` and `NetUnparser` of libsponge/util/parser.cc promise: the bytes of an integer, and
-- the way back.
use cs144_2021_sponge.Prelude.{
  ℕ, ◌+◌, ◌/◌, ◌%◌, ◌^◌, ◌≤◌, ◌<◌, ◌≡◌, refl, ap, ◌∙◌, subst, ap₂, true, false, List, [], ◌∷◌, ◌++◌,
  append_assoc, length, length-append, drop, arith, ltb, Bool-cases, inl, inr,
}
use cs144_2021_sponge.Buffer.{str, size, advance}
use cs144_2021_sponge.Buffer.Laws.{IsSound, advance-drop}
use cs144_2021_sponge.Parser.{
  ParseResult, NetParser, check_size, set_error, parse_loop, parse_int, u32, u16, u8, remove_prefix,
  unparse_loop, unparse_int, put_u32, put_u16, put_u8, error,
}

-- The bytes of a value, the most significant one first.
abbrev pub bytes1 : ℕ → List ℕ
bytes1 v = v ∷ []

abbrev pub bytes2 : ℕ → List ℕ
bytes2 v = v / 2 ^ 8 ∷ v % 2 ^ 8 ∷ []

abbrev pub bytes4 : ℕ → List ℕ
bytes4 v = v / 2 ^ 24 ∷ v / 2 ^ 16 % 2 ^ 8 ∷ v / 2 ^ 8 % 2 ^ 8 ∷ v % 2 ^ 8 ∷ []

pub put_u8-append : (s : List ℕ) (v : ℕ) → v < 2 ^ 8 → put_u8 s v ≡ s ++ bytes1 v
unfolding put_u8 unparse_int unparse_loop
put_u8-append s v h = ap (λ b. s ++ (b ∷ [])) (omega arith)

pub put_u16-append : (s : List ℕ) (v : ℕ) → v < 2 ^ 16 → put_u16 s v ≡ s ++ bytes2 v
unfolding put_u16 unparse_int unparse_loop
put_u16-append s v h =
    let hi : v / 256 % 256 ≡ v / 2 ^ 8 = omega arith in
    let lo : v / 1 % 256 ≡ v % 2 ^ 8 = omega arith in
    append_assoc s (v / 256 % 256 ∷ []) (v / 1 % 256 ∷ [])
    ∙ ap₂ (λ (a b : ℕ). s ++ (a ∷ b ∷ [])) hi lo

pub put_u32-append : (s : List ℕ) (v : ℕ) → v < 2 ^ 32 → put_u32 s v ≡ s ++ bytes4 v
unfolding put_u32 unparse_int unparse_loop
put_u32-append s v h =
    let a : v / 16777216 % 256 ≡ v / 2 ^ 24 = omega arith in
    let b : v / 65536 % 256 ≡ v / 2 ^ 16 % 2 ^ 8 = omega arith in
    let c : v / 256 % 256 ≡ v / 2 ^ 8 % 2 ^ 8 = omega arith in
    let d : v / 1 % 256 ≡ v % 2 ^ 8 = omega arith in rw (a, b, c, d) simp (append_assoc)

-- No byte was taken, and there is an error.
abbrev pub Halted : NetParser → NetParser → Type 0
Halted p q = (q.buffer ≡ p.buffer) × (error q ≡ true)

pub not_less : (a b : ℕ) → b ≤ a → ltb a b ≡ false
not_less a b h = ground arith

-- A parser without error whose buffer is sound and shows `text`.
pub record Shows (p : NetParser) (text : List ℕ) : Type 0 where
  pub sound : IsSound p.buffer
  pub shown : str p.buffer ≡ text
  pub fine : p.result ≡ ParseResult.no_error

-- The parser, `len` bytes further on.
abbrev pub next : NetParser → ℕ → NetParser
next p len = record p { buffer = advance p.buffer len }

module _ (p : NetParser) (rest : List ℕ) where
  drop_front : (bytes : List ℕ) (len : ℕ) → length bytes ≡ len → drop len (bytes ++ rest) ≡ rest
  drop_front [] len e = subst (λ (k : ℕ). drop k rest ≡ rest) e refl
  drop_front (b ∷ bytes) len e =
      subst (λ (k : ℕ). drop k (b ∷ bytes ++ rest) ≡ rest) e (drop_front bytes (length bytes) refl)

  module _ (len : ℕ) (bytes : List ℕ) (e : length bytes ≡ len) (v : Shows p (bytes ++ rest)) where
    size_is : size p.buffer ≡ len + length rest
    unfolding size
    size_is = ap length v.shown ∙ length-append bytes rest ∙ ap (λ (k : ℕ). k + length rest) e

    fits : ltb (size p.buffer) len ≡ false
    fits = not_less (size p.buffer) len (omega (arith, size_is))

    next-Shows : Shows (next p len) rest
    next-Shows =
        let (shown, sound) = advance-drop p.buffer len v.sound (omega (arith, size_is)) in
        record {
          sound = sound;
          shown = shown ∙ ap (λ t. drop len t) v.shown ∙ drop_front bytes len e;
          fine = v.fine;
        }

    -- The size is checked, and the bytes are taken.
    take_bytes :
        (modulus : ℕ)
        → (parse_int len modulus p ≡ (next p len, parse_loop len 0 modulus (bytes ++ rest) 0))
          × Shows (next p len) rest
    unfolding parse_int check_size set_error
    take_bytes modulus = (rw (fits, v.fine, v.shown) refl, next-Shows)

    pub remove_bytes : (remove_prefix p len ≡ next p len) × Shows (next p len) rest
    unfolding remove_prefix check_size set_error
    remove_bytes = (rw (fits, v.fine) refl, next-Shows)

  pub u8-bytes1 :
      (v : ℕ)
      → v < 2 ^ 8
      → Shows p (bytes1 v ++ rest)
      → (u8 p ≡ (next p 1, v)) × Shows (next p 1) rest
  unfolding u8 parse_loop
  u8-bytes1 v h shows =
      let (e, after) = take_bytes 1 (bytes1 v) refl shows (2 ^ 8) in
      (e ∙ ap (λ (k : ℕ). (next p 1, k)) (omega arith), after)

  pub u16-bytes2 :
      (v : ℕ)
      → v < 2 ^ 16
      → Shows p (bytes2 v ++ rest)
      → (u16 p ≡ (next p 2, v)) × Shows (next p 2) rest
  unfolding u16 parse_loop
  u16-bytes2 v h shows =
      let (e, after) = take_bytes 2 (bytes2 v) refl shows (2 ^ 16) in
      (e ∙ ap (λ (k : ℕ). (next p 2, k)) (omega arith), after)

  pub u32-bytes4 :
      (v : ℕ)
      → v < 2 ^ 32
      → Shows p (bytes4 v ++ rest)
      → (u32 p ≡ (next p 4, v)) × Shows (next p 4) rest
  unfolding u32 parse_loop
  u32-bytes4 v h shows =
      let (e, after) = take_bytes 4 (bytes4 v) refl shows (2 ^ 32) in
      (e ∙ ap (λ (k : ℕ). (next p 4, k)) (omega arith), after)

  -- A 32-bit value that `NetUnparser` has written is read back by a parser without error whose buffer
  -- shows its bytes first, and the parser shows what follows them.
  pub u32-put_u32 :
      (v : ℕ) → v < 2 ^ 32 → Shows p (put_u32 [] v ++ rest) → ((u32 p).1 ≡ v) × Shows (u32 p).0 rest
  u32-put_u32 v h shows =
      let (e, after) =
        u32-bytes4 v h (subst (λ t. Shows p (t ++ rest)) (put_u32-append [] v h) shows) in
      rw e (refl, after)

check_size-Halted : (p : NetParser) (n : ℕ) → error p ≡ true → Halted p (check_size p n)
unfolding check_size set_error
check_size-Halted p n e = elim (Bool-cases (ltb (size p.buffer) n)) [
  | inl short ↦ rw short (refl, refl)
  | inr fits ↦ rw fits (refl, e)
]

parse_int-Halted :
    (len modulus : ℕ) (p : NetParser)
    → error p ≡ true
    → ((parse_int len modulus p).1 ≡ 0) × Halted p (parse_int len modulus p).0
unfolding parse_int
parse_int-Halted len modulus p e =
    let (same, failed) = check_size-Halted p len e in rw failed (refl, (same, failed))

remove_prefix-Halted : (p : NetParser) (n : ℕ) → error p ≡ true → Halted p (remove_prefix p n)
unfolding remove_prefix
remove_prefix-Halted p n e =
    let (same, failed) = check_size-Halted p n e in rw failed (same, failed)

-- After an error, every later read answers 0 and `remove_prefix` does nothing: no byte is taken, and the
-- parser stays in error.
pub error_stays :
    (p : NetParser) (n : ℕ)
    → error p ≡ true
    → ((u32 p).1 ≡ 0)
      × ((u16 p).1 ≡ 0)
      × ((u8 p).1 ≡ 0)
      × (Halted p (u32 p).0)
      × (Halted p (u16 p).0)
      × (Halted p (u8 p).0)
      × (Halted p (remove_prefix p n))
unfolding u32 u16 u8
error_stays p n e = (
  (parse_int-Halted 4 (2 ^ 32) p e).0,
  (parse_int-Halted 2 (2 ^ 16) p e).0,
  (parse_int-Halted 1 (2 ^ 8) p e).0,
  (parse_int-Halted 4 (2 ^ 32) p e).1,
  (parse_int-Halted 2 (2 ^ 16) p e).1,
  (parse_int-Halted 1 (2 ^ 8) p e).1,
  remove_prefix-Halted p n e,
)
