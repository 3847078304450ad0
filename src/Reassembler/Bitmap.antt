-- ===== src/Reassembler/Bitmap.antt =====
-- The two deques of libsponge/stream_reassembler.hh: what a shift and a mark do to each slot, and
-- the number of marked slots.
use cs144_2021_sponge.Prelude.{
  ℕ, zero, suc, ◌≤◌, ◌<◌, ◌≡◌, refl, ap, Bool, true, false, List, [], ◌∷◌, ◌++◌, length, get_or,
  set, replicate, length-append, arith,
}
use cs144_2021_sponge.Reassembler.{shift, front}

-- How many slots are marked.
unfoldable pub marked : List Bool → ℕ
marked [] = 0
marked (true ∷ bs) = suc (marked bs)
marked (false ∷ bs) = marked bs

module _ {ℓ} {A : Type ℓ} where
  pub length-shift : (xs : List A) (d : A) → 0 < length xs → length (shift xs d) ≡ length xs
  length-shift [] d h = absurd (omega arith)
  length-shift (x ∷ xs) d h = omega (arith, length-append xs (d ∷ []))

  get_or-snoc : (xs : List A) (i : ℕ) (d : A) → get_or (xs ++ (d ∷ [])) i d ≡ get_or xs i d
  get_or-snoc [] zero d = refl
  get_or-snoc [] (suc i) d = refl
  get_or-snoc (x ∷ xs) zero d = refl
  get_or-snoc (x ∷ xs) (suc i) d = get_or-snoc xs i d

  -- Every slot moves down by one, and the new last slot is empty.
  pub get_or-shift : (xs : List A) (i : ℕ) (d : A) → get_or (shift xs d) i d ≡ get_or xs (suc i) d
  get_or-shift [] zero d = refl
  get_or-shift [] (suc i) d = refl
  get_or-shift (x ∷ xs) i d = get_or-snoc xs i d

  pub get_or-replicate : (n i : ℕ) (d : A) → get_or (replicate n d) i d ≡ d
  get_or-replicate zero i d = refl
  get_or-replicate (suc n) zero d = refl
  get_or-replicate (suc n) (suc i) d = get_or-replicate n i d

pub marked-le-length : (bs : List Bool) → marked bs ≤ length bs
unfolding marked
marked-le-length [] = omega arith
marked-le-length (true ∷ bs) = omega (arith, marked-le-length bs)
marked-le-length (false ∷ bs) = omega (arith, marked-le-length bs)

pub marked-replicate : (n : ℕ) → marked (replicate n false) ≡ 0
unfolding marked
marked-replicate zero = refl
marked-replicate (suc n) = marked-replicate n

marked-snoc : (bs : List Bool) → marked (bs ++ (false ∷ [])) ≡ marked bs
unfolding marked
marked-snoc [] = refl
marked-snoc (true ∷ bs) = ap suc (marked-snoc bs)
marked-snoc (false ∷ bs) = marked-snoc bs

-- A shift takes a marked front away.
pub marked-shift :
    (bs : List Bool) → front bs false ≡ true → marked bs ≡ suc (marked (shift bs false))
unfolding marked
marked-shift [] h = cc
marked-shift (true ∷ bs) h = ap suc (omega (arith, marked-snoc bs))
marked-shift (false ∷ bs) h = cc

-- A mark on an empty slot counts once.
pub marked-set :
    (bs : List Bool) (k : ℕ)
    → k < length bs
    → get_or bs k false ≡ false
    → marked (set bs k true) ≡ suc (marked bs)
unfolding marked
marked-set [] k h e = absurd (omega arith)
marked-set (true ∷ bs) zero h e = cc
marked-set (false ∷ bs) zero h e = refl
marked-set (true ∷ bs) (suc k) h e = ap suc (marked-set bs k (omega arith) e)
marked-set (false ∷ bs) (suc k) h e = marked-set bs k (omega arith) e

-- Marks below `m` only are at most `m`.
pub marked-le :
    (bs : List Bool) (m : ℕ) → ((i : ℕ) → get_or bs i false ≡ true → i < m) → marked bs ≤ m
unfolding marked
marked-le [] m h = omega arith
marked-le (true ∷ bs) zero h = absurd (omega (arith, h 0 refl))
marked-le (true ∷ bs) (suc m) h = omega (arith, marked-le bs m (λ i e. omega (arith, h (suc i) e)))
marked-le (false ∷ bs) zero h = marked-le bs zero (λ i e. absurd (omega (arith, h (suc i) e)))
marked-le (false ∷ bs) (suc m) h = omega (arith, marked-le bs m (λ i e. omega (arith, h (suc i) e)))
