-- ===== src/Prelude/Every.antt =====
-- A predicate on every member of a list.
use Prim.Native.Nat.{ℕ, zero, suc}
use mathlib.Core.Path.{◌≡◌, subst}
use mathlib.Core.Option.{some}
use mathlib.Core.List.{List, [], ◌∷◌, ◌++◌}
use cs144_2021_sponge.Prelude.Lists.{get_elem?}

module _ {ℓ κ} {A : Type ℓ} where
  abbrev pub All : (A → Type κ) → List A → Type κ
  All P [] = Unit
  All P (x ∷ xs) = P x × All P xs

  pub All-append : (P : A → Type κ) (xs ys : List A) → All P xs → All P ys → All P (xs ++ ys)
  All-append P [] ys p q = q
  All-append P (x ∷ xs) ys p q = (p.0, All-append P xs ys p.1 q)

  pub All-suffix : (P : A → Type κ) (xs ys : List A) → All P (xs ++ ys) → All P ys
  All-suffix P [] ys p = p
  All-suffix P (x ∷ xs) ys p = All-suffix P xs ys p.1

  pub All-weaken : {P Q : A → Type κ} (xs : List A) → ((x : A) → P x → Q x) → All P xs → All Q xs
  All-weaken [] f p = tt
  All-weaken (x ∷ xs) f p = (f x p.0, All-weaken xs f p.1)

  pub All-at :
      (P : A → Type κ) (xs : List A) (i : ℕ) (x : A) → All P xs → get_elem? xs i ≡ some x → P x
  All-at P [] i x p e = cc
  All-at P (y ∷ ys) zero x p e = let h : y ≡ x = cc in subst P h p.0
  All-at P (y ∷ ys) (suc i) x p e = All-at P ys i x p.1 e
