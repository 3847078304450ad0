-- ===== src/Utilities/Rows.antt =====
-- The layout of what `hexdump` of libsponge/util/util.cc prints: rows of sixteen bytes.
use cs144_2021_sponge.Prelude.{
  ℕ, ◌+◌, ◌-◌, ◌*◌, ◌/◌, ◌%◌, ◌≤◌, ◌≡◌, refl, sym, ap, ◌∙◌, List, [], ◌∷◌, ◌++◌, length, replicate,
  map, arith, append_assoc,
}
use cs144_2021_sponge.Utilities.{
  padded, shown_char, Dump, start, put, four_spaces, end_line, line_head, before_byte, dump_byte,
  dump_loop, finish, hexdump,
}
use cs144_2021_sponge.Utilities.Bytes.{
  cells, at, dump_byte-next, dump_loop-inside, dump_loop-append, regroup,
}

-- The row that starts with the `p`-th byte: its number, the bytes, and as far to the right as in a full row
-- their characters.
unfoldable pub row : ℕ → ℕ → ℕ → List ℕ → List ℕ
row indent p byte bytes =
    let missing = 15 - length bytes in
    line_head indent p
    ++ (padded 2 byte
        ++ (cells (p + 1) bytes
            ++ (replicate (2 * missing + missing / 2 + 4) 32
                ++ (map shown_char (byte ∷ bytes) ++ (10 ∷ [])))))

-- A row is a byte and those after it.
unfoldable pub flat : List (ℕ × List ℕ) → List ℕ
flat [] = []
flat (r ∷ rows) = r.0 ∷ (r.1 ++ flat rows)

-- Sixteen bytes in every row but the last.
unfoldable pub Rows : List (ℕ × List ℕ) → Type 0
Rows [] = Unit
Rows (r ∷ []) = length r.1 ≤ 15
Rows (r ∷ next ∷ rows) = (length r.1 ≡ 15) × Rows (next ∷ rows)

-- The rows from the `p`-th byte on, and an empty line.
unfoldable pub rows_text : ℕ → ℕ → List (ℕ × List ℕ) → List ℕ
rows_text indent p [] = 10 ∷ []
rows_text indent p (r ∷ rows) = row indent p r.0 r.1 ++ rows_text indent (p + 16) rows

-- The first byte of a row finds the text `t` before it.
abbrev Before : ℕ → ℕ → Dump → List ℕ → Type 0
Before indent p d t =
    (byte : ℕ)
    → dump_byte indent d byte
      ≡ at (p + 1) (shown_char byte ∷ []) ((t ++ line_head indent p) ++ padded 2 byte)

dump_loop-row :
    (indent p : ℕ) (d : Dump) (t : List ℕ) (byte : ℕ) (bytes more : List ℕ)
    → Before indent p d t
    → p % 16 ≡ 0
    → length bytes ≤ 15
    → dump_loop indent d (byte ∷ (bytes ++ more))
      ≡ dump_loop indent
          (at
            (p + 1 + length bytes)
            (map shown_char (byte ∷ bytes))
            (((t ++ line_head indent p) ++ padded 2 byte) ++ cells (p + 1) bytes))
          more
unfolding dump_loop
dump_loop-row indent p d t byte bytes more before first fits =
    ap (λ (e : Dump). dump_loop indent e (bytes ++ more)) (before byte)
    ∙ dump_loop-append indent _ bytes more
    ∙ ap (λ (e : Dump). dump_loop indent e more)
        (dump_loop-inside indent (p + 1) (shown_char byte ∷ []) _ bytes
          (λ full. omega (arith, first, full)) (omega (arith, first, fits)))

five :
    (a b c d e x y : List ℕ)
    → (a ++ (b ++ (c ++ (d ++ (e ++ x))))) ++ y ≡ a ++ (b ++ (c ++ (d ++ (e ++ (x ++ y)))))
five a b c d e x y =
    append_assoc a _ y
    ∙ ap (λ zs. a ++ zs)
        (append_assoc b _ y
          ∙ ap (λ zs. b ++ zs)
              (append_assoc c _ y
                ∙ ap (λ zs. c ++ zs)
                    (append_assoc d _ y ∙ ap (λ zs. d ++ zs) (append_assoc e x y))))

finish-row :
    (indent p : ℕ) (t : List ℕ) (byte : ℕ) (bytes : List ℕ)
    → p % 16 ≡ 0
    → length bytes ≤ 15
    → finish (
        at
          (p + 1 + length bytes)
          (map shown_char (byte ∷ bytes))
          (((t ++ line_head indent p) ++ padded 2 byte) ++ cells (p + 1) bytes))
      ≡ t ++ (row indent p byte bytes ++ (10 ∷ []))
unfolding finish row
finish-row indent p t byte bytes first fits =
    let chars : List ℕ = map shown_char (byte ∷ bytes) in
    let out : List ℕ = ((t ++ line_head indent p) ++ padded 2 byte) ++ cells (p + 1) bytes in
    let missing : (16 - (p + 1 + length bytes) % 16) % 16 ≡ 15 - length bytes =
      omega (arith, first, fits) in
    ap (λ (k : ℕ). out ++ (replicate (2 * k + k / 2 + 4) 32 ++ (chars ++ (10 ∷ 10 ∷ [])))) missing
    ∙ regroup t (line_head indent p) (padded 2 byte) (cells (p + 1) bytes) _
    ∙ ap (λ zs. t ++ zs)
        (sym (
          five (line_head indent p) (padded 2 byte) (cells (p + 1) bytes) _ chars (10 ∷ [])
            (10 ∷ [])))

-- After a full row the next one finds that row.
row-Before :
    (indent p : ℕ) (t : List ℕ) (byte : ℕ) (bytes : List ℕ)
    → p % 16 ≡ 0
    → length bytes ≡ 15
    → Before indent
        (p + 16)
        (at
          (p + 1 + length bytes)
          (map shown_char (byte ∷ bytes))
          (((t ++ line_head indent p) ++ padded 2 byte) ++ cells (p + 1) bytes))
        (t ++ row indent p byte bytes)
unfolding row
row-Before indent p t byte bytes first full b =
    let chars : List ℕ = map shown_char (byte ∷ bytes) in
    let out : List ℕ = ((t ++ line_head indent p) ++ padded 2 byte) ++ cells (p + 1) bytes in
    let sixteen : p + 1 + length bytes ≡ p + 16 = omega (arith, full) in
    let none_missing : 0 ≡ 15 - length bytes = omega (arith, full) in
    ap (λ (q : ℕ). dump_byte indent (at q chars out) b) sixteen
    ∙ dump_byte-next indent (p + 16) chars out b (omega (arith, first)) (omega arith)
    ∙ ap
        (λ zs.
          at (p + 16 + 1) (shown_char b ∷ []) ((zs ++ line_head indent (p + 16)) ++ padded 2 b))
        (regroup t (line_head indent p) (padded 2 byte) (cells (p + 1) bytes)
            (four_spaces ++ (chars ++ (10 ∷ [])))
          ∙ ap
              (λ (k : ℕ).
                t
                ++ (line_head indent p
                    ++ (padded 2 byte
                        ++ (cells (p + 1) bytes
                            ++ (replicate (2 * k + k / 2 + 4) 32 ++ (chars ++ (10 ∷ [])))))))
              none_missing)

finish-Rows :
    (indent p : ℕ) (d : Dump) (t : List ℕ) (r : ℕ × List ℕ) (rows : List (ℕ × List ℕ))
    → Before indent p d t
    → p % 16 ≡ 0
    → Rows (r ∷ rows)
    → finish (dump_loop indent d (flat (r ∷ rows))) ≡ t ++ rows_text indent p (r ∷ rows)
unfolding flat Rows rows_text dump_loop
finish-Rows indent p d t r [] before first fits =
    ap finish (dump_loop-row indent p d t r.0 r.1 [] before first fits)
    ∙ finish-row indent p t r.0 r.1 first fits
finish-Rows indent p d t r (next ∷ rows) before first (full, rest) =
    ap finish
      (dump_loop-row indent p d t r.0 r.1 (flat (next ∷ rows)) before first (omega (arith, full)))
    ∙ finish-Rows indent (p + 16) _ (t ++ row indent p r.0 r.1) next rows
        (row-Before indent p t r.0 r.1 first full) (omega (arith, first)) rest
    ∙ append_assoc t (row indent p r.0 r.1) (rows_text indent (p + 16) (next ∷ rows))

start-Before : (indent : ℕ) → Before indent 0 start []
unfolding dump_byte before_byte end_line put
start-Before indent byte = refl

pub hexdump-rows_text :
    (indent : ℕ) (r : ℕ × List ℕ) (rows : List (ℕ × List ℕ))
    → Rows (r ∷ rows)
    → hexdump (flat (r ∷ rows)) indent ≡ rows_text indent 0 (r ∷ rows)
unfolding hexdump
hexdump-rows_text indent r rows shape =
    finish-Rows indent 0 start [] r rows (start-Before indent) refl shape
