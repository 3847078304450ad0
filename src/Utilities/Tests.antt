-- ===== src/Utilities/Tests.antt =====
-- Small dumps.
use cs144_2021_sponge.Prelude.{
  ℕ, ◌≡◌, refl, some, List, [], ◌∷◌, ◌++◌, replicate, All, arith, zero, suc,
}
use cs144_2021_sponge.Utilities.{hexdump, system_call, negsuc, finish, dump_loop}
use cs144_2021_sponge.Utilities.Rows.{flat, Rows}
use cs144_2021_sponge.Utilities.Picture.{IsByte, picture}
use cs144_2021_sponge.Utilities.Layout.{hexdump-Rows}

-- Without any byte the space of `pchars` is printed.
hexdump-empty : hexdump [] 0 ≡ replicate 5 32 ++ (10 ∷ 10 ∷ [])
unfolding hexdump finish dump_loop
hexdump-empty = refl

-- Where `errno` is the mask a negative result is handed on.
system_call-masked : system_call 11 (negsuc 0) 11 ≡ some (negsuc 0)
unfolding system_call
system_call-masked = refl

-- Seventeen bytes: one full row and a single byte.
seventeen-IsByte : (n : ℕ) → All IsByte (replicate n 0 ++ (66 ∷ []))
seventeen-IsByte zero = (omega arith, tt)
seventeen-IsByte (suc n) = (omega arith, seventeen-IsByte n)

hexdump-Rows_example :
    (r : ℕ × List ℕ) × (rows : List (ℕ × List ℕ)) × Rows (r ∷ rows)
    × (flat (r ∷ rows) ≡ 65 ∷ (replicate 15 0 ++ (66 ∷ [])))
    × (hexdump (65 ∷ (replicate 15 0 ++ (66 ∷ []))) 2 ≡ picture 2 0 (r ∷ rows))
hexdump-Rows_example =
    hexdump-Rows 2 65 (replicate 15 0 ++ (66 ∷ [])) (omega arith, seventeen-IsByte 15) (omega arith)
