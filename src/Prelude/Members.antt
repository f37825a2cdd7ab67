-- ===== src/Prelude/Members.antt =====
-- Membership, positions and uniqueness in lists of comparable values.
use git_lfs.Prelude.Tests.{if◌then◌else◌, Bool-cases}
use git_lfs.Prelude.Equality.{Comparable, ◌==◌, eq_refl}
use git_lfs.Prelude.Lists.{length, get_elem?, take, drop}
use Prim.Native.Nat.{ℕ, zero, suc, ◌<◌, ◌≤◌}
use mathlib.Core.Path.{◌≡◌, refl, ap, subst}
use mathlib.Core.Logic.{inl, inr}
use mathlib.Core.Bool.{Bool, true, false, not, ◌&&◌, ◌||◌}
use mathlib.Core.List.{List, [], ◌∷◌, ◌++◌}
use mathlib.Core.Option.{Option, none, some}
use native.Mathlib.Omega.{arith}

-- The elements that pass a test, in order.
unfoldable pub keep {ℓ} : {A : Type ℓ} → (A → Bool) → List A → List A
keep p [] = []
keep p (x ∷ xs) = if p x then x ∷ keep p xs else keep p xs

-- Whether every element passes a test.
unfoldable pub all {ℓ} : {A : Type ℓ} → (A → Bool) → List A → Bool
all p [] = true
all p (x ∷ xs) = p x && all p xs

abbrev later : Option ℕ → Option ℕ
later none = none
later (some i) = some (suc i)

module _ {ℓ} {A : Type ℓ} ⦃c : Comparable A⦄ where
  unfoldable pub elem : A → List A → Bool
  elem a [] = false
  elem a (x ∷ xs) = x == a || elem a xs

  -- The first position of a value.
  unfoldable pub index_of : A → List A → Option ℕ
  index_of a [] = none
  index_of a (x ∷ xs) = if x == a then some 0 else later (index_of a xs)

  abbrev pub Uniq : List A → Type 0
  Uniq [] = Unit
  Uniq (x ∷ xs) = (elem x xs ≡ false) × Uniq xs

  pub elem-append : (a : A) (xs ys : List A) → elem a (xs ++ ys) ≡ (elem a xs || elem a ys)
  unfolding elem
  elem-append a [] ys = refl
  elem-append a (x ∷ xs) ys = ground (arith, elem-append a xs ys)

  pub elem-keep : (p : A → Bool) (a : A) (xs : List A) → elem a (keep p xs) ≡ (elem a xs && p a)
  unfolding elem keep
  elem-keep p a [] = refl
  elem-keep p a (x ∷ xs) = ground (arith, elem-keep p a xs, c.same_iff x a)

  pub keep-Uniq : (p : A → Bool) (xs : List A) → Uniq xs → Uniq (keep p xs)
  unfolding keep
  keep-Uniq p [] h = tt
  keep-Uniq p (x ∷ xs) h = elim (Bool-cases (p x)) [
    | inl yes_p ↦ rw yes_p (ground (arith, elem-keep p x xs), keep-Uniq p xs h.1)
    | inr no_p ↦ rw no_p (keep-Uniq p xs h.1)
  ]

  pub Uniq-append-new : (xs : List A) (a : A) → Uniq xs → elem a xs ≡ false → Uniq (xs ++ a ∷ [])
  unfolding elem
  Uniq-append-new [] a h n = (refl, tt)
  Uniq-append-new (x ∷ xs) a h n = (
    ground (arith, elem-append x xs (a ∷ []), c.same_iff x a, c.same_iff a x),
    Uniq-append-new xs a h.1 (ground arith),
  )

  pub all-elem :
      (p : A → Bool) (a : A) (xs : List A) → all p xs ≡ true → elem a xs ≡ true → p a ≡ true
  unfolding all elem
  all-elem p a [] h m = ground arith
  all-elem p a (x ∷ xs) h m = ground (arith, all-elem p a xs, c.same_iff x a)

  pub all_of_elem :
      (p : A → Bool) (xs : List A) → ((a : A) → elem a xs ≡ true → p a ≡ true) → all p xs ≡ true
  unfolding all elem
  all_of_elem p [] h = refl
  all_of_elem p (x ∷ xs) h = rw (h x (rw eq_refl)) (all_of_elem p xs (λ a m. h a (ground arith)))

  pub index_of-none : (a : A) (xs : List A) → index_of a xs ≡ none → elem a xs ≡ false
  unfolding index_of elem
  index_of-none a [] h = refl
  index_of-none a (x ∷ xs) h = ground (arith, index_of-none a xs)

  pub index_of-some : (a : A) (xs : List A) (i : ℕ) → index_of a xs ≡ some i → elem a xs ≡ true
  unfolding index_of elem
  index_of-some a [] i h = ground arith
  index_of-some a (x ∷ xs) zero h = ground (arith)
  index_of-some a (x ∷ xs) (suc i) h = ground (arith, index_of-some a xs i)

  pub index_of-get_elem? :
      (a : A) (xs : List A) (i : ℕ) → index_of a xs ≡ some i → get_elem? xs i ≡ some a
  unfolding index_of
  index_of-get_elem? a [] i h = ground arith
  index_of-get_elem? a (x ∷ xs) zero h = ground (arith, c.same_iff x a)
  index_of-get_elem? a (x ∷ xs) (suc i) h = ground (arith, index_of-get_elem? a xs i)

  pub index_of-append-new :
      (a b : A) (xs : List A)
      → index_of a (xs ++ b ∷ []) ≡ elim (index_of a xs) [
        | some i ↦ some i
        | none ↦ if b == a then some (length xs) else none
      ]
  unfolding index_of
  index_of-append-new a b [] = ground arith
  index_of-append-new a b (x ∷ xs) = ground (arith, index_of-append-new a b xs)

  pub elem-index_of :
      (a : A) (xs : List A) → elem a xs ≡ elim (index_of a xs) [ some _ ↦ true | none ↦ false ]
  unfolding index_of elem
  elem-index_of a [] = refl
  elem-index_of a (x ∷ xs) = ground (arith, elem-index_of a xs)

  pub keep_congr :
      (p q : A → Bool) (xs : List A)
      → ((a : A) → elem a xs ≡ true → p a ≡ q a)
      → keep p xs ≡ keep q xs
  unfolding keep elem
  keep_congr p q [] h = refl
  keep_congr p q (x ∷ xs) h =
      ground (arith, h x (rw eq_refl), keep_congr p q xs (λ a m. h a (ground arith)))

  pub keep_all : (p : A → Bool) (xs : List A) → ((a : A) → p a ≡ true) → keep p xs ≡ xs
  unfolding keep
  keep_all p [] h = refl
  keep_all p (x ∷ xs) h = ground (arith, h x, keep_all p xs h)

  -- A position holds a value of the list; in a list without duplicates it is the first of its value.
  pub get_elem?-elem : (a : A) (xs : List A) (i : ℕ) → get_elem? xs i ≡ some a → elem a xs ≡ true
  unfolding elem
  get_elem?-elem a [] i h = ground arith
  get_elem?-elem a (x ∷ xs) zero h = ground (arith, c.same_iff x a)
  get_elem?-elem a (x ∷ xs) (suc i) h = ground (arith, get_elem?-elem a xs i)

  pub get_elem?-index_of :
      (a : A) (xs : List A) (i : ℕ) → Uniq xs → get_elem? xs i ≡ some a → index_of a xs ≡ some i
  unfolding index_of
  get_elem?-index_of a [] i u h = ground arith
  get_elem?-index_of a (x ∷ xs) zero u h = ground (arith, c.same_iff x a)
  get_elem?-index_of a (x ∷ xs) (suc i) u h =
      ground (arith, get_elem?-index_of a xs i, get_elem?-elem a xs i, c.same_iff x a)

  pub index_of-lt-length : (a : A) (xs : List A) (i : ℕ) → index_of a xs ≡ some i → i < length xs
  unfolding index_of
  index_of-lt-length a [] i h = ground arith
  index_of-lt-length a (x ∷ xs) zero h = ground arith
  index_of-lt-length a (x ∷ xs) (suc i) h = ground (arith, index_of-lt-length a xs i)

  -- Lists of one length with the same element at each position of the first are equal.
  pub eq_of_positions :
      (xs ys : List A)
      → length xs ≡ length ys
      → ((i : ℕ) (a : A) → get_elem? xs i ≡ some a → get_elem? ys i ≡ some a)
      → xs ≡ ys
  eq_of_positions [] [] h g = refl
  eq_of_positions [] (y ∷ ys) h g = absurd (omega arith)
  eq_of_positions (x ∷ xs) [] h g = absurd (omega arith)
  eq_of_positions (x ∷ xs) (y ∷ ys) h g =
      ground (arith, g 0 x, eq_of_positions xs ys (omega arith) (λ i a m. g (suc i) a m))

  pub elem-drop : (n : ℕ) (a : A) (xs : List A) → elem a (drop n xs) ≡ true → elem a xs ≡ true
  unfolding elem
  elem-drop zero a xs h = h
  elem-drop (suc n) a [] h = h
  elem-drop (suc n) a (x ∷ xs) h = ground (arith, elem-drop n a xs)

  pub elem-take : (n : ℕ) (a : A) (xs : List A) → elem a (take n xs) ≡ true → elem a xs ≡ true
  unfolding elem
  elem-take zero a xs h = ground arith
  elem-take (suc n) a [] h = h
  elem-take (suc n) a (x ∷ xs) h = ground (arith, elem-take n a xs)

  pub drop-Uniq : (n : ℕ) (xs : List A) → Uniq xs → Uniq (drop n xs)
  drop-Uniq zero xs u = u
  drop-Uniq (suc n) [] u = tt
  drop-Uniq (suc n) (x ∷ xs) u = drop-Uniq n xs u.1

  -- The elements other than `a`.
  abbrev pub others : A → List A → List A
  others a xs = keep (λ x. not (x == a)) xs

  others_absent : (a : A) (xs : List A) → elem a xs ≡ false → others a xs ≡ xs
  unfolding elem keep
  others_absent a [] h = refl
  others_absent a (x ∷ xs) h = ground (arith, others_absent a xs)

  -- In a list without duplicates a value stands once.
  pub length-others :
      (a : A) (xs : List A) → Uniq xs → elem a xs ≡ true → suc (length (others a xs)) ≡ length xs
  unfolding elem keep
  length-others a [] u h = ground arith
  length-others a (x ∷ xs) u h = elim (Bool-cases (x == a)) [
    | inl same ↦ rw same (
        ap (λ (l : List A). suc (length l))
          (others_absent a xs (subst (λ y. elem y xs ≡ false) ((c.same_iff x a).0 same) u.0)))
    | inr other ↦ rw other (ap suc (length-others a xs u.1 (ground arith)))
  ]

  -- A list without duplicates that is included in another, and is no shorter, includes it.
  pub included_back :
      (xs ys : List A)
      → Uniq xs
      → Uniq ys
      → ((a : A) → elem a xs ≡ true → elem a ys ≡ true)
      → length ys ≤ length xs
      → (a : A) → elem a ys ≡ true
      → elem a xs ≡ true
  unfolding elem
  included_back [] [] ux uy h l a m = m
  included_back [] (y ∷ ys) ux uy h l a m = absurd (omega arith)
  included_back (x ∷ xs) ys ux uy h l a m =
      let here : elem x ys ≡ true = h x (ground (arith, c.same_iff x x)) in
      let rest =
        included_back xs (others x ys) ux.1 (keep-Uniq _ ys uy)
          (λ b k.
            ground (
              arith,
              h b,
              elem-keep (λ y. not (y == x)) b ys,
              c.same_iff x b,
              c.same_iff b x,
              ux.0,
            ))
          (omega (arith, length-others x ys uy here)) a in
      ground (arith, rest, elem-keep (λ y. not (y == x)) a ys, c.same_iff x a, c.same_iff a x)

  -- A list without duplicates that is included in another is no longer than it.
  pub length_le_of_included :
      (xs ys : List A)
      → Uniq xs
      → Uniq ys
      → ((a : A) → elem a xs ≡ true → elem a ys ≡ true)
      → length xs ≤ length ys
  unfolding elem
  length_le_of_included [] ys ux uy h = omega arith
  length_le_of_included (x ∷ xs) ys ux uy h =
      let here : elem x ys ≡ true = h x (ground (arith, c.same_iff x x)) in
      let rest = length_le_of_included xs (others x ys) ux.1 (keep-Uniq _ ys uy) (λ b k.
        ground
          (arith, h b, elem-keep (λ y. not (y == x)) b ys, c.same_iff x b, c.same_iff b x, ux.0)) in
      omega (arith, rest, length-others x ys uy here)
