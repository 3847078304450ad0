-- ===== src/Utilities/Bytes.antt =====
-- Single bytes, and those left of a row, in `hexdump` of libsponge/util/util.cc.
use cs144_2021_sponge.Prelude.{
  ℕ, suc, ◌+◌, ◌%◌, ◌≤◌, ◌<◌, ◌≡◌, refl, sym, ap, ap₂, ◌∙◌, true, false, List, [], ◌∷◌, ◌++◌, ◌==◌,
  if◌then◌else◌, length, take, drop, map, arith, Bool-cases, inl, inr, append-nil, append_assoc,
  length-append,
}
use cs144_2021_sponge.Utilities.{
  padded, shown_char, Dump, put, four_spaces, end_line, line_head, before_byte, dump_byte,
  dump_loop, fresh_pchars,
}

-- The bytes of a row from the `p`-th byte on: a space before each byte with an even number.
unfoldable pub cells : ℕ → List ℕ → List ℕ
cells p [] = []
cells p (byte ∷ bytes) =
    let rest = cells (p + 1) bytes in
    (if p % 2 == 0 then 32 ∷ [] else []) ++ (padded 2 byte ++ rest)

-- The loop's variables once a row has characters.
abbrev pub at : ℕ → List ℕ → List ℕ → Dump
at p chars out = record { printed = p; pchars = chars; position = length chars; out = out }

put_text :
    (xs : List ℕ) (c : ℕ) → take (length xs) xs ++ (c ∷ drop (length xs + 1) xs) ≡ xs ++ (c ∷ [])
put_text [] c = refl
put_text (x ∷ xs) c =
    let next : suc (length xs) + 1 ≡ suc (length xs + 1) = omega arith in
    rw next (ap (λ zs. x ∷ zs) (put_text xs c))

put-end :
    (p : ℕ) (chars out : List ℕ) (c : ℕ) → put (at p chars out) c ≡ at p (chars ++ (c ∷ [])) out
unfolding put
put-end p chars out c =
    ap₂ (λ (t : List ℕ) (k : ℕ). record { printed = p; pchars = t; position = k; out = out })
      (put_text chars c) (sym (length-append chars (c ∷ [])))

before-inside :
    (indent p : ℕ) (chars out : List ℕ)
    → 0 < p % 16
    → before_byte indent (at p chars out) ≡ at p chars (out ++ (if p % 2 == 0 then 32 ∷ [] else []))
unfolding before_byte
before-inside indent p chars out inside =
    let no_line : (p % 16 == 0) ≡ false = ground (arith, inside) in
    elim (Bool-cases (p % 2 == 0)) [
      | inl even ↦ rw (no_line, even) refl
      | inr odd ↦ rw (no_line, odd) (ap (at p chars) (sym (append-nil out)))
    ]

before-next :
    (indent p : ℕ) (chars out : List ℕ)
    → p % 16 ≡ 0
    → 0 < p
    → before_byte indent (at p chars out) ≡ record {
      printed = p;
      pchars = fresh_pchars;
      position = 0;
      out = (out ++ (four_spaces ++ (chars ++ (10 ∷ [])))) ++ line_head indent p;
    }
unfolding before_byte end_line
before-next indent p chars out first later =
    let line : (p % 16 == 0) ≡ true = ground (arith, first) in
    let not_start : (p == 0) ≡ false = ground (arith, later) in rw (line, not_start) refl

dump_byte-inside :
    (indent p : ℕ) (chars out : List ℕ) (byte : ℕ)
    → 0 < p % 16
    → dump_byte indent (at p chars out) byte
      ≡ at
          (p + 1)
          (chars ++ (shown_char byte ∷ []))
          ((out ++ (if p % 2 == 0 then 32 ∷ [] else [])) ++ padded 2 byte)
unfolding dump_byte
dump_byte-inside indent p chars out byte inside =
    ap
      (λ (b : Dump). record (put (record b { out = b.out ++ padded 2 byte }) (shown_char byte)) {
        printed = p + 1;
      })
      (before-inside indent p chars out inside)
    ∙ ap (λ (d : Dump). record d { printed = p + 1 }) (put-end p chars _ (shown_char byte))

pub dump_byte-next :
    (indent p : ℕ) (chars out : List ℕ) (byte : ℕ)
    → p % 16 ≡ 0
    → 0 < p
    → dump_byte indent (at p chars out) byte
      ≡ at
          (p + 1)
          (shown_char byte ∷ [])
          (((out ++ (four_spaces ++ (chars ++ (10 ∷ [])))) ++ line_head indent p) ++ padded 2 byte)
unfolding dump_byte put
dump_byte-next indent p chars out byte first later =
    ap
      (λ (b : Dump). record (put (record b { out = b.out ++ padded 2 byte }) (shown_char byte)) {
        printed = p + 1;
      })
      (before-next indent p chars out first later)

at_same :
    {p q : ℕ} {chars chars' out out' : List ℕ}
    → p ≡ q
    → chars ≡ chars'
    → out ≡ out'
    → at p chars out ≡ at q chars' out'
at_same {q} {chars'} {out} e f g =
    ap₂ (λ (k : ℕ) (cs : List ℕ). at k cs out) e f ∙ ap (at q chars') g

-- The bytes that are left of a row.
pub dump_loop-inside :
    (indent p : ℕ) (chars out bytes : List ℕ)
    → (0 < length bytes → 0 < p % 16)
    → p % 16 + length bytes ≤ 16
    → dump_loop indent (at p chars out) bytes
      ≡ at (p + length bytes) (chars ++ map shown_char bytes) (out ++ cells p bytes)
unfolding dump_loop cells
dump_loop-inside indent p chars out [] inside fits =
    at_same (omega arith) (sym (append-nil chars)) (sym (append-nil out))
dump_loop-inside indent p chars out (byte ∷ bytes) inside fits =
    let space : List ℕ = if p % 2 == 0 then 32 ∷ [] else [] in
    ap (λ (d : Dump). dump_loop indent d bytes)
      (dump_byte-inside indent p chars out byte (inside (omega arith)))
    ∙ dump_loop-inside indent (p + 1) _ _ bytes (λ more. omega (arith, more, fits))
        (omega (arith, fits))
    ∙ at_same (omega arith) (append_assoc chars (shown_char byte ∷ []) (map shown_char bytes)) (
        append_assoc (out ++ space) (padded 2 byte) (cells (p + 1) bytes)
        ∙ append_assoc out space (padded 2 byte ++ cells (p + 1) bytes))

pub dump_loop-append :
    (indent : ℕ) (d : Dump) (xs ys : List ℕ)
    → dump_loop indent d (xs ++ ys) ≡ dump_loop indent (dump_loop indent d xs) ys
unfolding dump_loop
dump_loop-append indent d [] ys = refl
dump_loop-append indent d (x ∷ xs) ys = dump_loop-append indent (dump_byte indent d x) xs ys

pub regroup : (t h p c e : List ℕ) → (((t ++ h) ++ p) ++ c) ++ e ≡ t ++ (h ++ (p ++ (c ++ e)))
regroup t h p c e =
    append_assoc ((t ++ h) ++ p) c e
    ∙ append_assoc (t ++ h) p (c ++ e)
    ∙ append_assoc t h (p ++ (c ++ e))
