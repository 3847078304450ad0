-- ===== src/Utilities/Layout.antt =====
-- What `hexdump` of libsponge/util/util.cc prints, for any bytes.
use cs144_2021_sponge.Prelude.{
  ℕ, zero, suc, ◌+◌, ◌≤◌, ◌<◌, ◌≡◌, refl, sym, ap, ◌∙◌, List, [], ◌∷◌, ◌++◌, leb, length, arith,
  Bool-cases, inl, inr, append-nil, length-append, All, subst, ◌^◌,
}
use cs144_2021_sponge.Utilities.{hexdump}
use cs144_2021_sponge.Utilities.Rows.{flat, Rows, hexdump-rows_text}
use cs144_2021_sponge.Utilities.Picture.{IsByte, picture, rows_text-picture}

split :
    (n : ℕ) (xs : List ℕ)
    → n < length xs
    → (row : List ℕ) × (c : ℕ) × (rest : List ℕ) × (length row ≡ n) × (xs ≡ row ++ (c ∷ rest))
split n [] long = absurd (omega (arith, long))
split zero (x ∷ xs) long = ([], x, xs, refl, refl)
split (suc n) (x ∷ xs) long =
    let (row, c, rest, len, e) = split n xs (omega (arith, long)) in
    (x ∷ row, c, rest, ap suc len, ap (λ ys. x ∷ ys) e)

one-Rows :
    (byte : ℕ) (bytes : List ℕ)
    → length bytes ≤ 15
    → Rows ((byte, bytes) ∷ []) × (flat ((byte, bytes) ∷ []) ≡ byte ∷ bytes)
unfolding Rows flat
one-Rows byte bytes fits = (fits, ap (λ ys. byte ∷ ys) (append-nil bytes))

more-Rows :
    (byte : ℕ) (row : List ℕ) (r : ℕ × List ℕ) (rows : List (ℕ × List ℕ)) (rest : List ℕ)
    → length row ≡ 15
    → Rows (r ∷ rows)
    → flat (r ∷ rows) ≡ rest
    → Rows ((byte, row) ∷ r ∷ rows) × (flat ((byte, row) ∷ r ∷ rows) ≡ byte ∷ (row ++ rest))
unfolding Rows flat
more-Rows byte row r rows rest full shape e = ((full, shape), ap (λ ys. byte ∷ (row ++ ys)) e)

-- Any bytes fall into rows.
in-Rows :
    (fuel byte : ℕ) (bytes : List ℕ)
    → length bytes ≤ fuel
    → (r : ℕ × List ℕ) × (rows : List (ℕ × List ℕ)) × Rows (r ∷ rows)
      × (flat (r ∷ rows) ≡ byte ∷ bytes)
in-Rows zero byte bytes enough =
    let (shape, e) = one-Rows byte bytes (omega (arith, enough)) in ((byte, bytes), [], shape, e)
in-Rows (suc fuel) byte bytes enough = elim (Bool-cases (leb (length bytes) 15)) [
  | inl short ↦
      let (shape, e) = one-Rows byte bytes (ground (arith, short)) in ((byte, bytes), [], shape, e)
  | inr long ↦
      let (row, c, rest, full, parts) = split 15 bytes (ground (arith, long)) in
      let whole : length bytes ≡ length row + suc (length rest) =
        ap length parts ∙ length-append row (c ∷ rest) in
      let (r, rows, shape, e) = in-Rows fuel c rest (omega (arith, whole, enough)) in
      let (shape', e') = more-Rows byte row r rows (c ∷ rest) full shape e in
      ((byte, row), r ∷ rows, shape', e' ∙ ap (λ ys. byte ∷ ys) (sym parts))
]

-- `hexdump` of one byte or more, and fewer than 2 ^ 31, prints them in rows of sixteen, the last row perhaps
-- shorter: one line for each row and then an empty one. A line is the indentation, the number of the row's
-- first byte in eight hexadecimal digits, a colon, the bytes in pairs of two digits each and, always at the
-- same distance, their characters, with a dot for what is not printable.
pub hexdump-Rows :
    (indent byte : ℕ) (bytes : List ℕ)
    → All IsByte (byte ∷ bytes)
    → length (byte ∷ bytes) < 2 ^ 31
    → (r : ℕ × List ℕ) × (rows : List (ℕ × List ℕ)) × Rows (r ∷ rows)
      × (flat (r ∷ rows) ≡ byte ∷ bytes)
      × (hexdump (byte ∷ bytes) indent ≡ picture indent 0 (r ∷ rows))
hexdump-Rows indent byte bytes small few =
    let (r, rows, shape, e) = in-Rows (length bytes) byte bytes (omega arith) in
    (
      r,
      rows,
      shape,
      e,
      ap (λ data_bytes. hexdump data_bytes indent) (sym e)
          ∙ hexdump-rows_text indent r rows shape
          ∙ rows_text-picture indent 0 (r ∷ rows) shape (subst (All IsByte) (sym e) small)
              (omega (arith, ap length e, few)),
    )
