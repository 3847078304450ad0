-- ===== src/Checksum/Laws.antt =====
-- What `InternetChecksum` of libsponge/util/util.cc promises: the loop ends, and a checksum that is added
-- to what it was computed from gives zero.
use cs144_2021_sponge.Prelude.{
  ℕ, zero, suc, ◌+◌, ◌-◌, ◌*◌, ◌/◌, ◌%◌, ◌^◌, ◌≤◌, ◌<◌, ◌≡◌, refl, ap, ◌∙◌, Bool, true, false, not,
  List, [], ◌∷◌, ◌++◌, length, ltb, add32, arith, Bool-cases, ltb→lt, inl, inr,
}
use cs144_2021_sponge.Checksum.{InternetChecksum, weight, add, fold_loop, value}

fold_loop-fits : (ret : ℕ) → ret < 2 ^ 32 → fold_loop 3 ret < 2 ^ 16
unfolding fold_loop
fold_loop-fits ret h = ground arith

fold_loop-mod :
    (fuel ret : ℕ)
    → ret < 2 ^ 32
    → (fold_loop fuel ret % (2 ^ 16 - 1) ≡ ret % (2 ^ 16 - 1)) × (0 < ret → 0 < fold_loop fuel ret)
unfolding fold_loop
fold_loop-mod zero ret h = (refl, λ p. p)
fold_loop-mod (suc fuel) ret h =
    let (same, pos) = fold_loop-mod fuel ((ret / 2 ^ 16 + ret % 2 ^ 16) % 2 ^ 32) (omega arith) in
    elim (Bool-cases (ltb (2 ^ 16 - 1) ret)) [
      | inl more ↦ rw more (same ∙ omega arith, λ p. pos (omega arith))
      | inr done ↦ rw done (refl, λ p. p)
    ]

fold_zero : fold_loop 3 0 ≡ 0
unfolding fold_loop
fold_zero = refl

-- For every 32-bit sum the three rounds end the loop, with no carry left. And a sum to which its value
-- was added has the value 0, as long as nothing was lost above 32 bits.
pub value-value :
    (c c' : InternetChecksum)
    → c'.sum ≡ c.sum + value c
    → c'.sum < 2 ^ 32
    → (fold_loop 3 c.sum < 2 ^ 16) × (value c' ≡ 0)
unfolding value
value-value c c' e h =
    let low : c.sum < 2 ^ 32 = omega (arith, e, h) in
    let (same, pos) = fold_loop-mod 3 c.sum low in
    let (same', pos') = fold_loop-mod 3 c'.sum h in
    let fits = fold_loop-fits c.sum low in
    let fits' = fold_loop-fits c'.sum h in
    let more : 0 < c'.sum = elim (Bool-cases (ltb 0 c.sum)) [
      | inl some_ ↦ omega (arith, e, ltb→lt 0 c.sum some_)
      | inr none_ ↦
          let nothing : c.sum ≡ 0 = ground (arith, none_) in
          omega (arith, e, ap (λ (k : ℕ). fold_loop 3 k) nothing, fold_zero)
    ] in
    let grown : c'.sum ≡ c.sum + (2 ^ 16 - 1 - fold_loop 3 c.sum) = omega (arith, e, fits) in
    (fits, omega (arith, same, same', fits, fits', pos' more, grown))

-- The sum of the bytes' weights, and the parity after them.
unfoldable pub word_sum : Bool → List ℕ → ℕ
word_sum parity [] = 0
word_sum parity (byte ∷ bytes) = weight parity byte + word_sum (not parity) bytes

unfoldable pub parity_after : Bool → List ℕ → Bool
parity_after parity [] = parity
parity_after parity (byte ∷ bytes) = parity_after (not parity) bytes

pub add-append : (xs ys : List ℕ) (c : InternetChecksum) → add c (xs ++ ys) ≡ add (add c xs) ys
unfolding add
add-append [] ys c = refl
add-append (x ∷ xs) ys c =
    add-append xs ys (record { sum = add32 c.sum (weight c.parity x); parity = not c.parity })

weight-le : (parity : Bool) (byte : ℕ) → weight parity byte ≤ 65280
weight-le true byte = omega arith
weight-le false byte = omega arith

pub word_sum-le : (parity : Bool) (xs : List ℕ) → word_sum parity xs ≤ 65280 * length xs
unfolding word_sum
word_sum-le parity [] = omega arith
word_sum-le parity (x ∷ xs) = omega (arith, weight-le parity x, word_sum-le (not parity) xs)

-- As long as 32 bits suffice, nothing is lost.
pub add_exact :
    (xs : List ℕ) (c : InternetChecksum)
    → c.sum + word_sum c.parity xs < 2 ^ 32
    → ((add c xs).sum ≡ c.sum + word_sum c.parity xs)
      × ((add c xs).parity ≡ parity_after c.parity xs)
unfolding add word_sum parity_after
add_exact [] c h = (omega arith, refl)
add_exact (x ∷ xs) c h =
    let e : add32 c.sum (weight c.parity x) ≡ c.sum + weight c.parity x = omega arith in
    let (sum, parity) =
      add_exact xs (record { sum = add32 c.sum (weight c.parity x); parity = not c.parity })
        (omega (arith, e, h)) in
    (omega (arith, sum, e), parity)
