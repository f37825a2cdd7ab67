-- ===== src/Prelude/Lists.antt =====
-- Lists measured and indexed by native numbers, under the library's names, and predicates on them.
use Prim.Native.Nat.{ℕ, zero, suc, ◌+◌, ◌-◌, ◌≤◌, ◌<◌}
use mathlib.Core.Path.{◌≡◌, refl}
use mathlib.Core.List.{List, [], ◌∷◌, ◌++◌}
use mathlib.Core.Option.{Option, none, some}
use native.Mathlib.Omega.{arith}

module _ {ℓ} {A : Type ℓ} where
  abbrev pub length : List A → ℕ
  length [] = 0
  length (x ∷ xs) = suc (length xs)

  abbrev pub get_elem? : List A → ℕ → Option A
  get_elem? [] i = none
  get_elem? (x ∷ xs) zero = some x
  get_elem? (x ∷ xs) (suc i) = get_elem? xs i

  abbrev pub take : ℕ → List A → List A
  take zero xs = []
  take (suc n) [] = []
  take (suc n) (x ∷ xs) = x ∷ take n xs

  abbrev pub drop : ℕ → List A → List A
  drop zero xs = xs
  drop (suc n) [] = []
  drop (suc n) (x ∷ xs) = drop n xs

  pub length-append : (xs ys : List A) → length (xs ++ ys) ≡ length xs + length ys
  length-append [] ys = omega arith
  length-append (x ∷ xs) ys = omega (arith, length-append xs ys)

  pub take-append-drop : (n : ℕ) (xs : List A) → take n xs ++ drop n xs ≡ xs
  take-append-drop zero xs = refl
  take-append-drop (suc n) [] = refl
  take-append-drop (suc n) (x ∷ xs) = rw (take-append-drop n xs)

  pub length-take-le : (n : ℕ) (xs : List A) → length (take n xs) ≤ n
  length-take-le zero xs = omega arith
  length-take-le (suc n) [] = omega arith
  length-take-le (suc n) (x ∷ xs) = omega (arith, length-take-le n xs)

  pub length-drop : (n : ℕ) (xs : List A) → length (drop n xs) ≡ length xs - n
  length-drop zero xs = omega arith
  length-drop (suc n) [] = omega arith
  length-drop (suc n) (x ∷ xs) = omega (arith, length-drop n xs)

  -- Where `take n xs` has all of its `n` elements, what is appended starts at position `n`.
  pub get_elem?-take-append :
      (n : ℕ) (xs ys : List A) → n ≤ length xs → get_elem? (take n xs ++ ys) n ≡ get_elem? ys 0
  get_elem?-take-append zero xs [] h = refl
  get_elem?-take-append zero xs (y ∷ ys) h = refl
  get_elem?-take-append (suc n) [] ys h = absurd (omega arith)
  get_elem?-take-append (suc n) (x ∷ xs) ys h = get_elem?-take-append n xs ys (omega arith)

  pub drop-take-append :
      (n : ℕ) (xs ys : List A) → n ≤ length xs → drop (suc n) (take n xs ++ ys) ≡ drop 1 ys
  drop-take-append zero xs ys h = refl
  drop-take-append (suc n) [] ys h = absurd (omega arith)
  drop-take-append (suc n) (x ∷ xs) ys h = drop-take-append n xs ys (omega arith)

  pub drop_cons :
      (n : ℕ) (xs : List A) (a : A) → get_elem? xs n ≡ some a → drop n xs ≡ a ∷ drop (suc n) xs
  drop_cons n [] a h = ground arith
  drop_cons zero (x ∷ xs) a h = ground arith
  drop_cons (suc n) (x ∷ xs) a h = drop_cons n xs a h

  pub get_elem?_lt : (n : ℕ) (xs : List A) → n < length xs → (a : A) × (get_elem? xs n ≡ some a)
  get_elem?_lt n [] h = absurd (omega arith)
  get_elem?_lt zero (x ∷ xs) h = (x, refl)
  get_elem?_lt (suc n) (x ∷ xs) h = get_elem?_lt n xs (omega arith)

module _ {ℓ κ} {A : Type ℓ} (P : A → Type κ) where
  abbrev pub All : List A → Type κ
  All [] = Unit
  All (x ∷ xs) = P x × All xs

  pub All-append : (xs ys : List A) → All xs → All ys → All (xs ++ ys)
  All-append [] ys _ hy = hy
  All-append (x ∷ xs) ys (px, hx) hy = (px, All-append xs ys hx hy)
