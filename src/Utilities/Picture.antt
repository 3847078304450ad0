-- ===== src/Utilities/Picture.antt =====
-- What a dump by `hexdump` of libsponge/util/util.cc looks like, said without the code's own functions.
use cs144_2021_sponge.Prelude.{
  ℕ, zero, suc, ◌+◌, ◌-◌, ◌*◌, ◌/◌, ◌%◌, ◌^◌, ◌<◌, ◌≡◌, refl, sym, ap, ap₂, ◌∙◌, true, false, ◌&&◌,
  List, [], ◌∷◌, ◌++◌, ltb, leb, ◌==◌, if◌then◌else◌, length, replicate, map, arith, Bool-cases,
  inl, inr, append_assoc, length-append, All,
}
use native.Mathlib.Nat.{pow-suc}
use cs144_2021_sponge.Utilities.{hex_digit, hex, padded, shown_char, line_head}
use cs144_2021_sponge.Utilities.Bytes.{cells}
use cs144_2021_sponge.Utilities.Rows.{row, rows_text, Rows, flat}

-- The digits 0 to 9 and a to f.
unfoldable pub symbol : ℕ → ℕ
symbol d = if leb d 9 then 48 + d else 97 + (d - 10)

-- The last `width` digits of a number in base 16.
unfoldable pub digits : ℕ → ℕ → List ℕ
digits zero n = []
digits (suc width) n = digits width (n / 16) ++ (symbol (n % 16) ∷ [])

-- A byte from the space to the tilde stands for itself, another one for a dot.
unfoldable pub visible : ℕ → ℕ
visible byte = if ltb 31 byte && ltb byte 127 then byte else 46

-- The bytes from the `p`-th on, two digits each, a space before each byte with an even number.
unfoldable pub pairs : ℕ → List ℕ → List ℕ
pairs p [] = []
pairs p (byte ∷ bytes) =
    let rest = pairs (p + 1) bytes in
    (if p % 2 == 0 then 32 ∷ [] else []) ++ (digits 2 byte ++ rest)

-- The line that starts with the `p`-th byte: the indentation, the number of the byte in eight digits, a colon
-- and four spaces, the bytes, two and a half places for each missing one and four more, and the characters.
unfoldable pub line : ℕ → ℕ → ℕ → List ℕ → List ℕ
line indent p byte bytes =
    let missing = 15 - length bytes in
    (replicate indent 32 ++ (digits 8 p ++ (58 ∷ 32 ∷ 32 ∷ 32 ∷ 32 ∷ [])))
    ++ (digits 2 byte
        ++ (pairs (p + 1) bytes
            ++ (replicate (2 * missing + missing / 2 + 4) 32
                ++ (map visible (byte ∷ bytes) ++ (10 ∷ [])))))

-- The lines from the `p`-th byte on, and an empty one.
unfoldable pub picture : ℕ → ℕ → List (ℕ × List ℕ) → List ℕ
picture indent p [] = 10 ∷ []
picture indent p (r ∷ rows) = line indent p r.0 r.1 ++ picture indent (p + 16) rows

abbrev pub IsByte : ℕ → Type 0
IsByte b = b < 256

hex_digit-symbol : (d : ℕ) → d < 16 → hex_digit d ≡ symbol d
unfolding hex_digit symbol
hex_digit-symbol d small = ground (arith, small)

replicate-last : (n : ℕ) → replicate {A = ℕ} (suc n) 48 ≡ replicate n 48 ++ (48 ∷ [])
replicate-last zero = refl
replicate-last (suc n) = ap (λ zs. 48 ∷ zs) (replicate-last n)

digits-zero : (n : ℕ) → digits n 0 ≡ replicate {A = ℕ} n 48
unfolding digits symbol
digits-zero zero = refl
digits-zero (suc n) = ap (λ zs. zs ++ (48 ∷ [])) (digits-zero n) ∙ sym (replicate-last n)

-- One digit.
hex-digits_one :
    (fuel width n : ℕ)
    → n < 16
    → replicate (suc width - length (hex (suc fuel) n)) 48 ++ hex (suc fuel) n
      ≡ digits (suc width) n
unfolding hex digits
hex-digits_one fuel width n small =
    let one : ltb n 16 ≡ true = ground (arith, small) in
    let places : suc width - 1 ≡ width = omega arith in
    let quotient : 0 ≡ n / 16 = omega (arith, small) in
    let rest : n ≡ n % 16 = omega (arith, small) in
    rw one (
      ap (λ (k : ℕ). replicate k 48 ++ (hex_digit n ∷ [])) places
      ∙ ap₂ (λ xs d. xs ++ (d ∷ [])) (sym (digits-zero width) ∙ ap (digits width) quotient)
          (hex_digit-symbol n small ∙ ap symbol rest))

hex-step :
    (fuel n : ℕ)
    → ltb n 16 ≡ false
    → hex (suc fuel) n ≡ hex fuel (n / 16) ++ (hex_digit (n % 16) ∷ [])
unfolding hex
hex-step fuel n more = rw more refl

digits-step : (width n : ℕ) → digits (suc width) n ≡ digits width (n / 16) ++ (symbol (n % 16) ∷ [])
unfolding digits
digits-step width n = refl

-- One digit more than the quotient has.
hex-digits_more :
    (fuel width n : ℕ)
    → ltb n 16 ≡ false
    → replicate (suc width - length (hex (suc fuel) (n / 16))) 48 ++ hex (suc fuel) (n / 16)
      ≡ digits (suc width) (n / 16)
    → replicate (suc (suc width) - length (hex (suc (suc fuel)) n)) 48 ++ hex (suc (suc fuel)) n
      ≡ digits (suc (suc width)) n
hex-digits_more fuel width n more rest =
    let front : List ℕ = hex (suc fuel) (n / 16) in
    let last : List ℕ = hex_digit (n % 16) ∷ [] in
    let places : suc (suc width) - length (front ++ last) ≡ suc width - length front =
      omega (arith, length-append front last) in
    ap (λ xs. replicate (suc (suc width) - length xs) 48 ++ xs) (hex-step (suc fuel) n more)
    ∙ ap (λ (k : ℕ). replicate k 48 ++ (front ++ last)) places
    ∙ sym (append_assoc (replicate (suc width - length front) 48) front last)
    ∙ ap₂ (λ xs d. xs ++ (d ∷ [])) rest (hex_digit-symbol (n % 16) (omega arith))
    ∙ sym (digits-step (suc width) n)

-- Zeros in front of the digits that there are.
hex-digits :
    (fuel width n : ℕ)
    → n < 16 ^ suc fuel
    → n < 16 ^ suc width
    → replicate (suc width - length (hex (suc fuel) n)) 48 ++ hex (suc fuel) n
      ≡ digits (suc width) n
hex-digits zero width n small fits = hex-digits_one zero width n (omega (arith, small))
hex-digits (suc fuel) zero n small fits = hex-digits_one (suc fuel) zero n (omega (arith, fits))
hex-digits (suc fuel) (suc width) n small fits = elim (Bool-cases (ltb n 16)) [
  | inl one ↦ hex-digits_one (suc fuel) (suc width) n (ground (arith, one))
  | inr more ↦ hex-digits_more fuel width n more (
      hex-digits fuel width (n / 16) (omega (arith, small, pow-suc 16 (suc fuel)))
        (omega (arith, fits, pow-suc 16 (suc width))))
]

padded-two : (b : ℕ) → b < 256 → padded 2 b ≡ digits 2 b
unfolding padded
padded-two b small = hex-digits 7 1 b (omega (arith, small)) (omega (arith, small))

padded-eight : (p : ℕ) → p < 2 ^ 32 → padded 8 p ≡ digits 8 p
unfolding padded
padded-eight p small = hex-digits 7 7 p (omega (arith, small)) (omega (arith, small))

shown_char-visible : (b : ℕ) → shown_char b ≡ visible b
unfolding shown_char visible
shown_char-visible b = ground arith

map-visible : (bytes : List ℕ) → map shown_char bytes ≡ map visible bytes
map-visible [] = refl
map-visible (b ∷ bytes) = ap₂ ◌∷◌ (shown_char-visible b) (map-visible bytes)

cells-pairs : (p : ℕ) (bytes : List ℕ) → All IsByte bytes → cells p bytes ≡ pairs p bytes
unfolding cells pairs
cells-pairs p [] v = refl
cells-pairs p (b ∷ bytes) v =
    let space : List ℕ = if p % 2 == 0 then 32 ∷ [] else [] in
    ap₂ (λ xs ys. space ++ (xs ++ ys)) (padded-two b v.0) (cells-pairs (p + 1) bytes v.1)

line_head-digits :
    (indent p : ℕ)
    → p < 2 ^ 32
    → line_head indent p ≡ replicate indent 32 ++ (digits 8 p ++ (58 ∷ 32 ∷ 32 ∷ 32 ∷ 32 ∷ []))
unfolding line_head
line_head-digits indent p small =
    ap (λ xs. replicate indent 32 ++ (xs ++ (58 ∷ 32 ∷ 32 ∷ 32 ∷ 32 ∷ []))) (padded-eight p small)

row-line :
    (indent p byte : ℕ) (bytes : List ℕ)
    → p < 2 ^ 32
    → IsByte byte
    → All IsByte bytes
    → row indent p byte bytes ≡ line indent p byte bytes
unfolding row line
row-line indent p byte bytes small b v =
    rw
      (
        line_head-digits indent p small,
        padded-two byte b,
        cells-pairs (p + 1) bytes v,
        shown_char-visible byte,
        map-visible bytes,
      )
      refl

All-split : (xs ys : List ℕ) → All IsByte (xs ++ ys) → All IsByte xs × All IsByte ys
All-split [] ys v = (tt, v)
All-split (x ∷ xs) ys v = let (a, b) = All-split xs ys v.1 in ((v.0, a), b)

pub rows_text-picture :
    (indent p : ℕ) (rows : List (ℕ × List ℕ))
    → Rows rows
    → All IsByte (flat rows)
    → p + length (flat rows) < 2 ^ 32
    → rows_text indent p rows ≡ picture indent p rows
unfolding rows_text picture flat Rows
rows_text-picture indent p [] shape v small = refl
rows_text-picture indent p (r ∷ []) shape v small =
    ap (λ xs. xs ++ (10 ∷ []))
      (row-line indent p r.0 r.1 (omega (arith, small)) v.0 (All-split r.1 [] v.1).0)
rows_text-picture indent p (r ∷ next ∷ rows) shape v small =
    let (first, others) = All-split r.1 (flat (next ∷ rows)) v.1 in
    ap₂ ◌++◌ (row-line indent p r.0 r.1 (omega (arith, small)) v.0 first) (
      rows_text-picture indent (p + 16) (next ∷ rows) shape.1 others
        (omega (arith, small, shape.0, length-append r.1 (flat (next ∷ rows)))))
