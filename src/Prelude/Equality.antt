-- ===== src/Prelude/Equality.antt =====
-- Types whose values the source compares by `==`: numbers, and texts byte by byte.
use Prim.Native.Nat.{ℕ}
use mathlib.Core.Path.{◌≡◌, refl}
use mathlib.Core.Logic.{◌↔◌}
use mathlib.Core.Bool.{Bool, true, false, ◌&&◌}
use mathlib.Core.List.{List, [], ◌∷◌}
use native.Mathlib.Omega.{arith}
use git_lfs.Prelude.Tests.{eqb, eqb_iff}

abbrev pub same_text : List ℕ → List ℕ → Bool
same_text [] [] = true
same_text [] (y ∷ ys) = false
same_text (x ∷ xs) [] = false
same_text (x ∷ xs) (y ∷ ys) = eqb x y && same_text xs ys

pub same_text_iff : (xs ys : List ℕ) → (same_text xs ys ≡ true) ↔ (xs ≡ ys)
same_text_iff [] [] = ground arith
same_text_iff [] (y ∷ ys) = ground arith
same_text_iff (x ∷ xs) [] = ground arith
same_text_iff (x ∷ xs) (y ∷ ys) = ground (arith, same_text_iff xs ys)

-- A comparison, and that it decides equality.
pub record Comparable {ι} (T : Type ι) : Type ι where
  pub same : T → T → Bool
  pub same_iff : (x y : T) → (same x y ≡ true) ↔ (x ≡ y)

instance abbrev pub text_comparable : Comparable (List ℕ)
text_comparable = record { same = same_text; same_iff = same_text_iff }

instance abbrev pub number_comparable : Comparable ℕ
number_comparable = record { same = eqb; same_iff = eqb_iff }

module _ {ι} {T : Type ι} ⦃c : Comparable T⦄ where
  infix 50 ◌==◌
  abbrev pub ◌==◌ : T → T → Bool
  x == y = c.same x y

  pub eq_refl : (x : T) → (x == x) ≡ true
  eq_refl x = (c.same_iff x x).1 refl
